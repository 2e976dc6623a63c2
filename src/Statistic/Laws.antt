-- ===== src/Statistic/Laws.antt =====
-- The connections that the manager lists, and what its rates count.
use tun_flow.Base.{
  ℕ, ◌+◌, ◌%◌, ◌^◌, ◌≡◌, ◌≢◌, ◌↔◌, ◌⊎◌, refl, List, [], ◌∷◌, arith, Bytes, Bool-cases,
}
use tun_flow.Base.Text.{bytes_eq, bytes_eq_iff}
use tun_flow.Statistic.{
  Manager, TrackerInfo, tracker_read, tracker_write, tracker_read_from, tracker_write_to,
  tracker_close, without, join, leave, push_uploaded, push_downloaded, handle, store_upload,
  clear_upload, store_download, clear_download,
}

-- The id is listed.
abbrev pub Listed : Bytes → List Bytes → Type 0
Listed i [] = ⊥
Listed i (j ∷ js) = (j ≡ i) ⊎ Listed i js

without_iff : (i j : Bytes) (l : List Bytes) → Listed j (without i l) ↔ ((j ≢ i) × Listed j l)
without_iff i j [] = ground arith
without_iff i j (k ∷ l) = ground (arith, without_iff i j l, bytes_eq_iff k i)

-- `Join` adds the tracker to the connections that the manager lists and `Leave` removes it, and neither
-- touches another.
pub join-leave_iff :
    (t : TrackerInfo) (m : Manager) (j : Bytes)
    → (Listed j (join t m).connections ↔ ((j ≡ t.id) ⊎ Listed j m.connections))
      × (Listed j (leave t m).connections ↔ ((j ≢ t.id) × Listed j m.connections))
unfolding join leave
join-leave_iff t m j =
    ground
      (arith, without_iff t.id j m.connections, bytes_eq_iff t.id j, Bool-cases (bytes_eq t.id j))

-- A call that nothing interrupts.
pub data Call : Type 0 where
  uploads downloads : ℕ → Call
  rounds : Call

-- The manager, and the sums of what the rounds of `handle` have put into the rates.
pub record Ledger : Type 0 where
  pub manager : Manager
  pub uploads_taken : ℕ
  pub downloads_taken : ℕ

abbrev pub call : Call → Ledger → Ledger
call (uploads n) l = record l { manager = push_uploaded n l.manager }
call (downloads n) l = record l { manager = push_downloaded n l.manager }
call rounds l = record {
  manager = handle l.manager;
  uploads_taken = l.uploads_taken + (handle l.manager).upload_blip;
  downloads_taken = l.downloads_taken + (handle l.manager).download_blip;
}

abbrev pub calls : List Call → Ledger → Ledger
calls [] l = l
calls (c ∷ cs) l = calls cs (call c l)

-- The totals are what the rates took and what waits, modulo 2 ^ 64.
pub record Balanced (l : Ledger) : Type 0 where
  pub uploads_are :
      l.manager.upload_total % 2 ^ 64 ≡ (l.uploads_taken + l.manager.upload_temp) % 2 ^ 64
  pub downloads_are :
      l.manager.download_total % 2 ^ 64 ≡ (l.downloads_taken + l.manager.download_temp) % 2 ^ 64

call-Balanced : (c : Call) (l : Ledger) → Balanced l → Balanced (call c l)
unfolding handle
call-Balanced (uploads n) l b = record {
  uploads_are = omega (arith, b.uploads_are);
  downloads_are = b.downloads_are;
}
call-Balanced (downloads n) l b = record {
  uploads_are = b.uploads_are;
  downloads_are = omega (arith, b.downloads_are);
}
call-Balanced rounds l b = record {
  uploads_are = omega (arith, b.uploads_are);
  downloads_are = omega (arith, b.downloads_are);
}

-- Where no call interrupts another, the rates account for the totals: after any sequence of pushes and
-- rounds of `handle`, each total is what the rounds have put into its rate and what waits for the next.
pub calls-Balanced : (cs : List Call) (l : Ledger) → Balanced l → Balanced (calls cs l)
calls-Balanced [] l b = b
calls-Balanced (c ∷ cs) l b = calls-Balanced cs (call c l) (call-Balanced c l b)

-- Calls of `PushUploaded` and `PushDownloaded`.
pub data Push : Type 0 where
  up down : ℕ → Push

abbrev pub pushes : List Push → Manager → Manager
pushes [] m = m
pushes (up n ∷ ps) m = pushes ps (push_uploaded n m)
pushes (down n ∷ ps) m = pushes ps (push_downloaded n m)

abbrev pub sum_up : List Push → ℕ
sum_up [] = 0
sum_up (up n ∷ ps) = n + sum_up ps
sum_up (down n ∷ ps) = sum_up ps

abbrev pub sum_down : List Push → ℕ
sum_down [] = 0
sum_down (up n ∷ ps) = sum_down ps
sum_down (down n ∷ ps) = n + sum_down ps

-- The pushes that fall before each of the six atomic operations of a round of `handle`, and behind
-- the last: for each direction its load, its store and its reset.
pub record Gaps : Type 0 where
  pub before_load : List Push
  pub before_store : List Push
  pub before_clear : List Push
  pub between : List Push
  pub before_down_store : List Push
  pub before_down_clear : List Push
  pub behind : List Push

-- One round of `handle` with other goroutines' pushes between its atomic operations.
unfoldable pub handle_among : Gaps → Manager → Manager
handle_among g m =
    let m1 = pushes g.before_load m in
    let m2 = store_upload m1.upload_temp (pushes g.before_store m1) in
    let m3 = clear_upload (pushes g.before_clear m2) in
    let m4 = pushes g.between m3 in
    let m5 = store_download m4.download_temp (pushes g.before_down_store m4) in
    pushes g.behind (clear_download (pushes g.before_down_clear m5))

-- What pushes do: they add to what waits and to the totals, and leave the rates.
record Pushed (ps : List Push) (m m' : Manager) : Type 0 where
  up_temp : m'.upload_temp % 2 ^ 64 ≡ (m.upload_temp + sum_up ps) % 2 ^ 64
  down_temp : m'.download_temp % 2 ^ 64 ≡ (m.download_temp + sum_down ps) % 2 ^ 64
  up_total : m'.upload_total % 2 ^ 64 ≡ (m.upload_total + sum_up ps) % 2 ^ 64
  down_total : m'.download_total % 2 ^ 64 ≡ (m.download_total + sum_down ps) % 2 ^ 64
  up_blip : m'.upload_blip ≡ m.upload_blip
  down_blip : m'.download_blip ≡ m.download_blip

pushes-Pushed : (ps : List Push) (m : Manager) → Pushed ps m (pushes ps m)
pushes-Pushed [] m = record {
  up_temp = omega arith;
  down_temp = omega arith;
  up_total = omega arith;
  down_total = omega arith;
  up_blip = refl;
  down_blip = refl;
}
pushes-Pushed (up n ∷ ps) m =
    let p = pushes-Pushed ps (push_uploaded n m) in
    record {
      up_temp = omega (arith, p.up_temp);
      down_temp = p.down_temp;
      up_total = omega (arith, p.up_total);
      down_total = p.down_total;
      up_blip = p.up_blip;
      down_blip = p.down_blip;
    }
pushes-Pushed (down n ∷ ps) m =
    let p = pushes-Pushed ps (push_downloaded n m) in
    record {
      up_temp = p.up_temp;
      down_temp = omega (arith, p.down_temp);
      up_total = p.up_total;
      down_total = omega (arith, p.down_total);
      up_blip = p.up_blip;
      down_blip = p.down_blip;
    }

-- The bytes of each direction that fell between its load and its reset.
abbrev pub lost_up : Gaps → ℕ
lost_up g = sum_up g.before_store + sum_up g.before_clear

abbrev pub lost_down : Gaps → ℕ
lost_down g = sum_down g.before_down_store + sum_down g.before_down_clear

abbrev pub pushed_up : Gaps → ℕ
pushed_up g =
    sum_up g.before_load
    + lost_up g
    + (sum_up g.between + sum_up g.before_down_store + sum_up g.before_down_clear + sum_up g.behind)

abbrev pub pushed_down : Gaps → ℕ
pushed_down g =
    sum_down g.before_load
    + sum_down g.before_store
    + sum_down g.before_clear
    + sum_down g.between
    + lost_down g
    + sum_down g.behind

-- After a round the total of a direction is larger by all that was pushed, but the rate that the round
-- stored and what waits for the next are short of that by what was lost.
pub record Short (g : Gaps) (m m' : Manager) : Type 0 where
  pub up_total : m'.upload_total % 2 ^ 64 ≡ (m.upload_total + pushed_up g) % 2 ^ 64
  pub down_total : m'.download_total % 2 ^ 64 ≡ (m.download_total + pushed_down g) % 2 ^ 64
  pub up_rate : m'.upload_blip % 2 ^ 64 ≡ (m.upload_temp + sum_up g.before_load) % 2 ^ 64
  pub down_rate :
      m'.download_blip % 2 ^ 64
      ≡ (m.download_temp
          + (sum_down g.before_load
              + sum_down g.before_store
              + sum_down g.before_clear
              + sum_down g.between))
        % 2 ^ 64
  pub up_lost :
      (m'.upload_blip + m'.upload_temp + lost_up g) % 2 ^ 64
      ≡ (m.upload_temp + pushed_up g) % 2 ^ 64
  pub down_lost :
      (m'.download_blip + m'.download_temp + lost_down g) % 2 ^ 64
      ≡ (m.download_temp + pushed_down g) % 2 ^ 64

-- `handle` loses what is pushed between its load and its reset. Of a round with any whole pushes
-- before, between and behind its six atomic operations: each total grows by all the bytes that were pushed;
-- each rate is what waited before and what was pushed before its load; and for each direction the rate that is stored and what waits for the next round are together what waited before and
-- what was pushed, less exactly what was pushed between its load and its reset. All modulo 2 ^ 64.
pub handle_among-Short : (g : Gaps) (m : Manager) → Short g m (handle_among g m)
unfolding handle_among
handle_among-Short g m =
    let m1 = pushes g.before_load m in
    let m2 = store_upload m1.upload_temp (pushes g.before_store m1) in
    let m3 = clear_upload (pushes g.before_clear m2) in
    let m4 = pushes g.between m3 in
    let m5 = store_download m4.download_temp (pushes g.before_down_store m4) in
    let m6 = clear_download (pushes g.before_down_clear m5) in
    let p1 = pushes-Pushed g.before_load m in
    let p2 = pushes-Pushed g.before_store m1 in
    let p3 = pushes-Pushed g.before_clear m2 in
    let p4 = pushes-Pushed g.between m3 in
    let p5 = pushes-Pushed g.before_down_store m4 in
    let p6 = pushes-Pushed g.before_down_clear m5 in
    let p7 = pushes-Pushed g.behind m6 in
    record {
      up_total = omega (
        arith, p1.up_total, p2.up_total, p3.up_total, p4.up_total, p5.up_total, p6.up_total,
        p7.up_total,
      );
      down_total = omega (
        arith, p1.down_total, p2.down_total, p3.down_total, p4.down_total, p5.down_total,
        p6.down_total, p7.down_total,
      );
      up_rate =
          omega (arith, p1.up_temp, p3.up_blip, p4.up_blip, p5.up_blip, p6.up_blip, p7.up_blip);
      down_rate = omega (
        arith, p1.down_temp, p2.down_temp, p3.down_temp, p4.down_temp, p6.down_blip, p7.down_blip,
      );
      up_lost = omega (
        arith, p1.up_temp, p3.up_blip, p4.up_blip, p5.up_blip, p6.up_blip, p7.up_blip, p4.up_temp,
        p5.up_temp, p6.up_temp, p7.up_temp,
      );
      down_lost = omega (
        arith, p1.down_temp, p2.down_temp, p3.down_temp, p4.down_temp, p6.down_blip, p7.down_blip,
        p7.down_temp,
      );
    }

-- Without pushes among them the operations are those of a whole round.
abbrev no_gaps : Gaps
no_gaps = record {
  before_load = [];
  before_store = [];
  before_clear = [];
  between = [];
  before_down_store = [];
  before_down_clear = [];
  behind = [];
}

handle_among-handle : (m : Manager) → handle_among no_gaps m ≡ handle m
unfolding handle_among handle
handle_among-handle m = refl

-- What a tracker is asked to do between its making and its closing: n bytes came, or went.
pub data Use : Type 0 where
  reads writes reads_from writes_to : ℕ → Use

abbrev pub use_tracker : Use → TrackerInfo × Manager → TrackerInfo × Manager
use_tracker (reads n) (t, m) = tracker_read n t m
use_tracker (writes n) (t, m) = tracker_write n t m
use_tracker (reads_from n) (t, m) = tracker_read_from n t m
use_tracker (writes_to n) (t, m) = tracker_write_to n t m

abbrev pub use_all : List Use → TrackerInfo × Manager → TrackerInfo × Manager
use_all [] s = s
use_all (u ∷ us) s = use_all us (use_tracker u s)

-- The tracker's totals and the manager's grow alike, and the rest of both stays.
pub record Grown (t : TrackerInfo) (m : Manager) (s : TrackerInfo × Manager) : Type 0 where
  pub same_id : s.0.id ≡ t.id
  pub same_connections : s.1.connections ≡ m.connections
  pub uploads_alike :
      (s.0.upload_total + m.upload_total) % 2 ^ 64 ≡ (t.upload_total + s.1.upload_total) % 2 ^ 64
  pub downloads_alike :
      (s.0.download_total + m.download_total) % 2 ^ 64
      ≡ (t.download_total + s.1.download_total) % 2 ^ 64

use_tracker-Grown :
    (u : Use) (t : TrackerInfo) (m : Manager) (s : TrackerInfo × Manager)
    → Grown t m s
    → Grown t m (use_tracker u s)
unfolding tracker_read tracker_write tracker_read_from tracker_write_to
use_tracker-Grown (reads n) t m (t', m') g = record {
  same_id = g.same_id;
  same_connections = g.same_connections;
  uploads_alike = g.uploads_alike;
  downloads_alike = omega (arith, g.downloads_alike);
}
use_tracker-Grown (reads_from n) t m (t', m') g = record {
  same_id = g.same_id;
  same_connections = g.same_connections;
  uploads_alike = g.uploads_alike;
  downloads_alike = omega (arith, g.downloads_alike);
}
use_tracker-Grown (writes n) t m (t', m') g = record {
  same_id = g.same_id;
  same_connections = g.same_connections;
  uploads_alike = omega (arith, g.uploads_alike);
  downloads_alike = g.downloads_alike;
}
use_tracker-Grown (writes_to n) t m (t', m') g = record {
  same_id = g.same_id;
  same_connections = g.same_connections;
  uploads_alike = omega (arith, g.uploads_alike);
  downloads_alike = g.downloads_alike;
}

use_all-Grown :
    (us : List Use) (t : TrackerInfo) (m : Manager) (s : TrackerInfo × Manager)
    → Grown t m s
    → Grown t m (use_all us s)
use_all-Grown [] t m s g = g
use_all-Grown (u ∷ us) t m s g =
    use_all-Grown us t m (use_tracker u s) (use_tracker-Grown u t m s g)

-- Over any sequence of reads and writes of a tracker its totals grow by what the manager's grow by,
-- modulo 2 ^ 64, and closing it then removes it, and no other, from the connections listed.
pub use_all-close :
    (us : List Use) (t : TrackerInfo) (m : Manager)
    → Grown t m (use_all us (t, m))
      × ((j : Bytes)
          → Listed j (tracker_close (use_all us (t, m)).0 (use_all us (t, m)).1).connections
            ↔ ((j ≢ t.id) × Listed j m.connections))
unfolding tracker_close leave
use_all-close us t m =
    let g =
      use_all-Grown us t m (t, m)
        (record {
          same_id = refl;
          same_connections = refl;
          uploads_alike = refl;
          downloads_alike = omega arith;
        }) in
    (g, λ j. rw (g.same_id, g.same_connections) (without_iff t.id j m.connections))
