-- ===== src/Protocol/Canonical.antt =====
-- internal/hnieoj/protocol/protocol.go: what the bytes under a signature determine.
use go_judge.Prelude.{ℕ, ◌%◌, ◌^◌, ◌<◌, ◌≡◌, refl, Bytes, List, [], ◌∷◌, ◌++◌, arith, length}
use go_judge.Prelude.Ascii.{to_upper}
use go_judge.Protocol.{put_uint32, canonical, Purpose, fields_of}

-- Each field is shorter than 2 ^ 32 bytes.
abbrev pub AllShort : List Bytes → Type 0
AllShort [] = Unit
AllShort (x ∷ xs) = (length x < 2 ^ 32) × AllShort xs

append-injective :
    (xs ys us vs : Bytes) → length xs ≡ length us → xs ++ ys ≡ us ++ vs → (xs ≡ us) × (ys ≡ vs)
append-injective [] ys [] vs h e = (refl, e)
append-injective [] ys (u ∷ us) vs h e = absurd (omega arith)
append-injective (x ∷ xs) ys [] vs h e = absurd (omega arith)
append-injective (x ∷ xs) ys (u ∷ us) vs h e =
    let rest = append-injective xs ys us vs (omega arith) (cc) in (cc (rest.0), rest.1)

put_uint32-injective :
    (m n : ℕ) (xs ys : Bytes)
    → m < 2 ^ 32
    → n < 2 ^ 32
    → put_uint32 m ++ xs ≡ put_uint32 n ++ ys
    → (m ≡ n) × (xs ≡ ys)
unfolding put_uint32
put_uint32-injective m n xs ys hm hn e = (ground arith, cc)

-- Two lists of fields with the same bytes are the same list.
pub canonical-injective :
    (xs ys : List Bytes) → AllShort xs → AllShort ys → canonical xs ≡ canonical ys → xs ≡ ys
unfolding canonical put_uint32
canonical-injective [] [] hx hy e = refl
canonical-injective [] (y ∷ ys) hx hy e = cc
canonical-injective (x ∷ xs) [] hx hy e = cc
canonical-injective (x ∷ xs) (y ∷ ys) hx hy e =
    let head =
      put_uint32-injective (length x % 2 ^ 32) (length y % 2 ^ 32) (x ++ canonical xs)
        (y ++ canonical ys) (omega arith) (omega arith) e in
    let tail =
      append-injective x (canonical xs) y (canonical ys) (omega (arith, head.0)) (head.1) in
    cc (tail.0, canonical-injective xs ys hx.1 hy.1 (tail.1))

-- A purpose, with the HTTP method in upper case, as it is signed.
abbrev pub normal : Purpose → Purpose
normal (Purpose.http a i k v p b t n) = Purpose.http a i k (to_upper v) p b t n
normal p = p

fields_of-injective : (p q : Purpose) → fields_of p ≡ fields_of q → normal p ≡ normal q
unfolding fields_of
fields_of-injective (Purpose.enroll a c n e m p b) (Purpose.enroll a' c' n' e' m' p' b') h = cc
fields_of-injective (Purpose.auth a c n i k) (Purpose.auth a' c' n' i' k') h = cc
fields_of-injective (Purpose.http a i k v p b t n) (Purpose.http a' i' k' v' p' b' t' n') h = cc
fields_of-injective (Purpose.rotate_prepare a i r p) (Purpose.rotate_prepare a' i' r' p') h = cc
fields_of-injective (Purpose.rotate_confirm a i r k n) (Purpose.rotate_confirm a' i' r' k' n') h =
    cc
fields_of-injective p q h = cc

-- When no field is as long as 2 ^ 32 bytes, the bytes under a signature determine what it was made
-- for and every argument: those of an enrollment, an authentication, an HTTP request, the
-- preparation or the confirmation of a rotation, with the method of a request in upper case.
pub signed-determines :
    (p q : Purpose)
    → AllShort (fields_of p)
    → AllShort (fields_of q)
    → canonical (fields_of p) ≡ canonical (fields_of q)
    → normal p ≡ normal q
signed-determines p q hp hq e =
    fields_of-injective p q (canonical-injective (fields_of p) (fields_of q) hp hq e)
