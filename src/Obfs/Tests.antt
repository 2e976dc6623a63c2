-- ===== src/Obfs/Tests.antt =====
-- Concrete runs of the obfuscation as TLS.
use tun_flow.Base.{refl, inr, false, List, [], ◌∷◌, arith, replicate}
use tun_flow.Base.Text.{codes}
use tun_flow.Obfs.Tls.{TlsObfs, Fresh, read, write_all, new_tls_obfs}
use tun_flow.Obfs.Tls.Reading.{Frame, wire, Represents, Delivered, read-Delivered}
use tun_flow.Obfs.Tls.Writing.{Written, write_all-Written}

-- A first response with three bytes and a record with two.
abbrev frames : List Frame
frames = (replicate 105 7, 1 ∷ 2 ∷ 3 ∷ []) ∷ (23 ∷ 3 ∷ 3 ∷ [], 4 ∷ 5 ∷ []) ∷ []

abbrev answering : TlsObfs
answering =
    new_tls_obfs (record { input = wire frames; arrivals = 0 ∷ []; writes_left = 9; output = [] })
      (codes "host")

answering-Represents : Represents answering [] frames
answering-Represents = record {
  remaining = refl;
  on_wire = refl;
  fits = (refl, omega arith, (refl, omega arith, tt));
}

read-Delivered_example : Delivered 2 [] frames (read 2 answering)
read-Delivered_example =
    read-Delivered 2 answering [] frames answering-Represents (inr (omega arith))

abbrev fresh : Fresh
fresh = record { now = 1700000000; random = replicate 28 1; session_id = replicate 32 2 }

abbrev open_request : TlsObfs
open_request = record answering { first_request = false }

write_all-Written_example :
    Written 3 (7 ∷ 8 ∷ 9 ∷ []) open_request (write_all fresh (7 ∷ 8 ∷ 9 ∷ []) open_request)
write_all-Written_example = write_all-Written fresh (7 ∷ 8 ∷ 9 ∷ []) open_request (omega arith) refl
