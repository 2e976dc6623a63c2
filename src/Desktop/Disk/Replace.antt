-- ===== src/Desktop/Disk/Replace.antt =====
-- What `replaceFileAtomic` of desktop/app.go leaves in the two files.
use tun_flow.Base.{
  ◌≡◌, ◌≢◌, refl, sym, ap, ◌∙◌, ◌⊎◌, inl, inr, false, none, some, arith, Bytes, Result, ok, err,
  panic, Bool-cases, if◌then◌else◌, length, length-append,
}
use tun_flow.Base.Text.{bytes_eq, bytes_eq_iff, bytes_eq_refl, codes}
use tun_flow.Desktop.{Fault, Files, not_exist, io}
use tun_flow.Desktop.Disk.{
  replace_file_atomic, backup_of, by_backup, past_backup, last_try, ending, try,
}

module _ {S : Type 0} (files : Files S) where
  -- The same files in two states.
  abbrev pub Same : S → S → Type 0
  Same s t = (p : Bytes) → files.look p t ≡ files.look p s

  -- What os.Rename documents: the file is moved, or nothing is changed, and a file that is missing is
  -- reported as such.
  pub data Renames (a b : Bytes) (s : S) : Result Fault (Unit {0}) × S → Type 0 where
    moved :
        {t : S}
        → ((p : Bytes)
            → files.look p t ≡ (
                if bytes_eq p b
                then files.look a s
                else if bytes_eq p a
                then none
                else files.look p s))
        → Renames a b s (ok tt, t)
    missing : {t : S} → files.look a s ≡ none → Same s t → Renames a b s (err not_exist, t)
    refused : {t : S} → Same s t → Renames a b s (err io, t)

  -- What os.Remove documents.
  pub data Removes (a : Bytes) (s : S) : Result Fault (Unit {0}) × S → Type 0 where
    removed :
        {t : S}
        → ((p : Bytes) → files.look p t ≡ (if bytes_eq p a then none else files.look p s))
        → Removes a s (ok tt, t)
    left : {t : S} (f : Fault) → Same s t → Removes a s (err f, t)

  pub record IsFiles : Type 0 where
    pub renames : (a b : Bytes) (s : S) → Renames a b s (files.rename a b s)
    pub removes : (a : Bytes) (s : S) → Removes a s (files.remove a s)

  -- How a replacement ends. With success the target is what the source was, and the source is gone. With
  -- an error the source is there, and what the target was is there too: in the target or in its backup.
  pub data Replaced (source target : Bytes) (s : S) : Result Fault (Unit {0}) × S → Type 0 where
    replaced :
        {t : S}
        → files.look target t ≡ files.look source s
        → files.look source t ≡ none
        → Replaced source target s (ok tt, t)
    kept :
        {t : S} (f : Fault)
        → files.look source t ≡ files.look source s
        → (files.look target t ≡ files.look target s)
          ⊎ (files.look (backup_of files target) t ≡ files.look target s)
        → Replaced source target s (err f, t)

bytes_eq-length : (a b : Bytes) → length a ≢ length b → bytes_eq a b ≡ false
bytes_eq-length a b h = elim (Bool-cases (bytes_eq a b)) [
  | inl e ↦ absurd (h (ap length ((bytes_eq_iff a b).0 e)))
  | inr e ↦ e
]

module _ {S : Type 0} (files : Files S) (lawful : IsFiles files) where
  target-backup : (target : Bytes) → bytes_eq target (backup_of files target) ≡ false
  target-backup target =
      bytes_eq-length target (backup_of files target)
        (λ e. absurd (omega (arith, e, length-append target (codes ".bak"))))

  -- A removal whose error is ignored leaves the other files alone.
  remove_other :
      (a p : Bytes) (s : S)
      → bytes_eq p a ≡ false
      → files.look p (try (files.remove a) s) ≡ files.look p s
  remove_other a p s e = go (files.remove a s) (lawful.removes a s)
    where
      go :
          (x : Result Fault (Unit {0}) × S)
          → Removes files a s x
          → files.look p x.1 ≡ files.look p s
      go x (removed h) = h p ∙ rw e refl
      go x (left f h) = h p

  module _ (source target : Bytes) (s : S) (c : Bytes) (there : files.look target s ≡ some c)
      (apart : bytes_eq source target ≡ false)
      (apart' : bytes_eq source (backup_of files target) ≡ false) where
    abbrev b : Bytes
    b = backup_of files target

    -- The backup holds what the target was, and the source is still there.
    abbrev InBackup : S → Type 0
    InBackup t =
        (files.look b t ≡ files.look target s) × (files.look source t ≡ files.look source s)

    undone :
        (f : Fault) (t : S)
        → InBackup t
        → Replaced files source target s (err f, try (files.rename b target) t)
    undone f t (old, new) = go (files.rename b target t) (lawful.renames b target t)
      where
        go :
            (x : Result Fault (Unit {0}) × S)
            → Renames files b target t x
            → Replaced files source target s (err f, x.1)
        go x (moved h) =
            kept f (h source ∙ rw (apart, apart') new)
              (inl (h target ∙ rw (bytes_eq_refl target) old))
        go x (missing n same) = kept f (same source ∙ new) (inr (same b ∙ old))
        go x (refused same) = kept f (same source ∙ new) (inr (same b ∙ old))

    last_try-Replaced :
        (t : S) → InBackup t → Replaced files source target s (last_try files source target b t)
    last_try-Replaced t (old, new) =
        go (files.rename source target t) (lawful.renames source target t)
      where
        go :
            (x : Result Fault (Unit {0}) × S)
            → Renames files source target t x
            → Replaced files source target s (
                ending files x (try (files.rename b target)) (λ u. (ok tt, try (files.remove b) u)))
        go (ok u, v) (moved h) =
            replaced
              (remove_other b target v (target-backup target)
                ∙ h target
                ∙ rw (bytes_eq_refl target) new)
              (remove_other b source v apart' ∙ h source ∙ rw (apart, bytes_eq_refl source) refl)
        go (err f, v) (missing n same) = undone not_exist v (same b ∙ old, same source ∙ new)
        go (err f, v) (refused same) = undone io v (same b ∙ old, same source ∙ new)
        go (panic, v) none_such = elim none_such [ ]

    -- After the first rename has failed and the old backup was removed, if it could be.
    second_try :
        (t : S)
        → files.look target t ≡ files.look target s
        → files.look source t ≡ files.look source s
        → Replaced files source target s
            (past_backup files source target b (files.rename target b t))
    second_try t old new = go (files.rename target b t) (lawful.renames target b t)
      where
        go :
            (x : Result Fault (Unit {0}) × S)
            → Renames files target b t x
            → Replaced files source target s (past_backup files source target b x)
        go (ok u, v) (moved h) =
            last_try-Replaced v (h b ∙ rw (bytes_eq_refl b) old, h source ∙ rw (apart', apart) new)
        go (err f, v) (missing n same) = let e = sym n ∙ old ∙ there in absurd (cc)
        go (err f, v) (refused same) = kept io (same source ∙ new) (inl (same target ∙ old))
        go (panic, v) none_such = elim none_such [ ]

    -- `replaceFileAtomic` onto a file that is there, of a source with another name than it and its backup. With
    -- success the target is what the source was, and the source is gone. With an error the source is
    -- as it was, and what the target was is in the target or in its backup.
    pub replace_file_atomic-Replaced :
        Replaced files source target s (replace_file_atomic files source target s)
    unfolding replace_file_atomic
    replace_file_atomic-Replaced =
        go (files.rename source target s) (lawful.renames source target s)
      where
        backed :
            (t : S)
            → Same files s t
            → Replaced files source target s
                (past_backup files source target b (files.rename target b (try (files.remove b) t)))
        backed t same =
            second_try (try (files.remove b) t)
              (remove_other b target t (target-backup target) ∙ same target)
              (remove_other b source t apart' ∙ same source)

        go :
            (x : Result Fault (Unit {0}) × S)
            → Renames files source target s x
            → Replaced files source target s (by_backup files source target x)
        go (ok u, t) (moved h) =
            replaced (h target ∙ rw (bytes_eq_refl target) refl)
              (h source ∙ rw (apart, bytes_eq_refl source) refl)
        go (err f, t) (missing n same) = backed t same
        go (err f, t) (refused same) = backed t same
        go (panic, t) none_such = elim none_such [ ]
