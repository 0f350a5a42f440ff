-- ===== src/Wss/Drain.antt =====
-- internal/hnieoj/wss/client.go: the two drain flags.
use go_judge.Prelude.{◌≡◌, true, false, Bool, Bytes, bytes_eq, codes, arith}
use go_judge.Prelude.Ascii.{to_upper, trim_space}
use go_judge.Wss.{Client, draining, handle_node_state}

-- A notice of the server ends a drain only if it says `ACTIVE` without draining, and never one that
-- was begun locally.
handle_node_state-draining :
    (status : Bytes) (is_draining : Bool) (c : Client)
    → draining c ≡ true
    → draining (handle_node_state status is_draining c).0 ≡ false
    → (bytes_eq (to_upper (trim_space status)) (codes "ACTIVE") ≡ true)
      × (is_draining ≡ false)
      × (c.local_draining ≡ false)
unfolding handle_node_state
handle_node_state-draining status is_draining c d e = ground arith
