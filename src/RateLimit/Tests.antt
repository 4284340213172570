-- ===== src/RateLimit/Tests.antt =====
-- Requests in a window of ten with a limit of two, and a forged header.
use super_ops.Base.{◌≡◌, refl, true, false, List, [], ◌∷◌, ◌++◌, Option, none, some, arith}
use super_ops.Base.Bytes.{codes, str_eq}
use super_ops.RateLimit.{Bytes, split_commas, client_ip}
use super_ops.RateLimit.Window.{
  Call, no_tally, requests, admit_all, idle, IsClock, requests-admit_all,
}
use super_ops.RateLimit.Address.{client_ip-prefix}

-- The entry of the third request is not taken back, and keeps the sixth out.
abbrev times : List Call
times =
    (100, true)
    ∷ (103, true)
    ∷ (105, false)
    ∷ (109, true)
    ∷ (112, true)
    ∷ (114, true)
    ∷ (116, true)
    ∷ []

times-IsClock : IsClock 0 times
times-IsClock = (
  omega arith,
  (omega arith, (omega arith, (omega arith, (omega arith, (omega arith, (omega arith, tt)))))),
)

admitted_example :
    (requests 2 10 times idle).tally
    ≡ record { admitted = 116 ∷ 114 ∷ 103 ∷ 100 ∷ []; counted = 116 ∷ 114 ∷ 105 ∷ 103 ∷ 100 ∷ [] }
unfolding requests
admitted_example = refl

requests-admit_all_example : (requests 2 10 times idle).tally ≡ admit_all 2 10 times no_tally
requests-admit_all_example = requests-admit_all 2 10 times times-IsClock

-- Every text is an address here.
abbrev no_port : Bytes → Option Bytes
no_port s = none

abbrev same : Bytes → Bytes
same s = s

client_ip-prefix_example :
    client_ip some no_port same true 1
      (record { remote = codes "10.0.0.1"; forwarded = codes "6.6.6.6" ++ b',' ∷ codes "1.2.3.4" })
    ≡ client_ip some no_port same true 1
        (record { remote = codes "10.0.0.1"; forwarded = codes "1.2.3.4" })
unfolding split_commas str_eq
client_ip-prefix_example =
    client_ip-prefix some no_port same 1 (codes "10.0.0.1") (codes "6.6.6.6") (codes "1.2.3.4")
      (omega arith) refl refl
