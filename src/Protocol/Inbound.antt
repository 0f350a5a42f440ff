-- ===== src/Protocol/Inbound.antt =====
-- internal/hnieoj/protocol/protocol.go: which envelopes `ValidateInbound` lets in.
use go_judge.Prelude.{
  ℕ, refl, sym, subst, ◌-◌, ◌^◌, ◌<◌, ◌≡◌, ◌↔◌, true, false, is_empty, none, some, arith, leb,
  if◌then◌else◌,
}
use go_judge.Prelude.Int.{
  ℤ, pos, negsuc, ◌+ℤ◌, ◌-ℤ◌, ◌≤ℤ◌, wrap64, wrap64_fits, pos_part, eq_ℤ, eq_ℤ_iff, ltb_ℤ,
}
use go_judge.Prelude.Ascii.{trim_space}
use go_judge.Protocol.{Envelope, known_type, skew_or_default, distance, validate_inbound}

-- What an envelope that is let in has, by a clock of the server that shows `server_now`.
pub record IsFresh (server_now window : ℤ) (env : Envelope) : Type 0 where
  pub version_one : env.version ≡ pos 1
  pub known : known_type env.message_type ≡ true
  pub named : is_empty (trim_space env.request_id) ≡ false
  pub stamped : pos 1 ≤ℤ env.timestamp
  pub not_old : server_now ≤ℤ env.timestamp +ℤ window
  pub not_early : env.timestamp ≤ℤ server_now +ℤ window

abbrev apart : ℕ → ℕ → ℕ
apart n t = if leb t n then n - t else t - n

distance_lem :
    (n t : ℕ) → n < 2 ^ 63 → t < 2 ^ 63 → distance (wrap64 (pos n -ℤ pos t)) ≡ pos (apart n t)
unfolding distance wrap64 ◌-ℤ◌
distance_lem n t hn ht = ground arith

timely :
    (n : ℕ) (timestamp window : ℤ)
    → n < 2 ^ 63
    → pos 1 ≤ℤ timestamp
    → timestamp ≤ℤ pos (2 ^ 63 - 1)
    → (ltb_ℤ window (distance (wrap64 (pos n -ℤ timestamp))) ≡ false)
      ↔ ((pos n ≤ℤ timestamp +ℤ window) × (timestamp ≤ℤ pos n +ℤ window))
unfolding ◌+ℤ◌
timely n (pos t) (pos w) hn low high = rw (distance_lem n t hn (omega arith)) (ground arith)
timely n (pos t) (negsuc w) hn low high = rw (distance_lem n t hn (omega arith)) (ground arith)
timely n (negsuc t) window hn low high = absurd (omega arith)

one_lem : (a : ℤ) → (eq_ℤ a (pos 1) ≡ true) ↔ (a ≡ pos 1)
one_lem a = (eq_ℤ_iff a (pos 1), λ h. rw h refl)

accepted_numbers :
    (env : Envelope) (now_millis offset skew window : ℤ) (n : ℕ)
    → skew_or_default skew ≡ window
    → wrap64 (now_millis +ℤ offset) ≡ pos n
    → n < 2 ^ 63
    → env.timestamp ≤ℤ pos (2 ^ 63 - 1)
    → (validate_inbound (some env) now_millis offset skew ≡ none) ↔ IsFresh (pos n) window env
unfolding validate_inbound
accepted_numbers env now_millis offset skew window n w e hn high =
    rw (w, e)
      (
        λ h. record {
          version_one = ground (arith, one_lem env.version);
          known = ground arith;
          named = ground arith;
          stamped = ground arith;
          not_old = ground (arith, timely n env.timestamp window hn);
          not_early = ground (arith, timely n env.timestamp window hn);
        },
        λ f. ground (
          arith,
          one_lem env.version,
          f.version_one,
          f.known,
          f.named,
          f.stamped,
          f.not_old,
          f.not_early,
          timely n env.timestamp window hn,
        ),
      )

nonneg : (a : ℤ) → pos 0 ≤ℤ a → a ≡ pos (pos_part a)
nonneg (pos n) low = refl
nonneg (negsuc n) low = absurd (omega arith)

wrap_nonneg : (a : ℤ) → pos 0 ≤ℤ a → a ≤ℤ pos (2 ^ 63 - 1) → wrap64 a ≡ pos (pos_part a)
wrap_nonneg (pos n) low high = wrap64_fits (pos n) (omega arith) (omega arith)
wrap_nonneg (negsuc n) low high = absurd (omega arith)

small_nonneg : (a : ℤ) → pos 0 ≤ℤ a → a ≤ℤ pos (2 ^ 63 - 1) → pos_part a < 2 ^ 63
small_nonneg (pos n) low high = omega arith
small_nonneg (negsuc n) low high = absurd (omega arith)

-- While the server's clock, which is the local one plus the offset, shows a time from 1970 on that
-- fits an `int64`, an envelope is let in exactly if its version is 1, its type is known, its request
-- id is not blank, its time is positive, and its time and the server's are no further apart than the
-- given skew, or 30 seconds where that is not positive.
pub validate_inbound-accepts_iff :
    (env : Envelope) (now_millis offset skew : ℤ)
    → pos 0 ≤ℤ now_millis +ℤ offset
    → now_millis +ℤ offset ≤ℤ pos (2 ^ 63 - 1)
    → env.timestamp ≤ℤ pos (2 ^ 63 - 1)
    → (validate_inbound (some env) now_millis offset skew ≡ none)
      ↔ IsFresh (now_millis +ℤ offset) (skew_or_default skew) env
validate_inbound-accepts_iff env now_millis offset skew low high stamp =
    let natural = nonneg (now_millis +ℤ offset) low in
    subst
      (λ shown.
        (validate_inbound (some env) now_millis offset skew ≡ none)
        ↔ IsFresh shown (skew_or_default skew) env)
      (sym natural)
      (accepted_numbers env now_millis offset skew (skew_or_default skew)
        (pos_part (now_millis +ℤ offset)) refl (wrap_nonneg (now_millis +ℤ offset) low high)
        (small_nonneg (now_millis +ℤ offset) low high) stamp)
