-- ===== src/Rotation/Valid.antt =====
-- internal/hnieoj/rotation/rotation.go: what an answer that passes the check says.
use go_judge.Prelude.{
  ◌≡◌, refl, ◌∙◌, ap, Bytes, bytes_eq_iff, is_empty, false, none, [], ◌∷◌, arith,
}
use go_judge.Prelude.Ascii.{trim_space, to_upper, is_space}
use go_judge.Identity.{PendingRotation}
use go_judge.Rotation.Server.{
  Answer, validate_rotation_response, validate_active, status_active, status_of,
}

-- A status that reads ACTIVE has no spaces around it.
active-trim : (s : Bytes) → to_upper s ≡ status_active → trim_space s ≡ s
unfolding to_upper trim_space
active-trim [] e = cc
active-trim (a ∷ []) e = absurd (cc)
active-trim (a ∷ (b ∷ [])) e = absurd (cc)
active-trim (a ∷ (b ∷ (c ∷ []))) e = absurd (cc)
active-trim (a ∷ (b ∷ (c ∷ (d ∷ [])))) e = absurd (cc)
active-trim (a ∷ (b ∷ (c ∷ (d ∷ (f ∷ []))))) e = absurd (cc)
active-trim (a ∷ (b ∷ (c ∷ (d ∷ (f ∷ (g ∷ [])))))) e =
    let first : is_space a ≡ false = ground arith in
    let last : is_space g ≡ false = ground arith in rw (first, last) refl
active-trim (a ∷ (b ∷ (c ∷ (d ∷ (f ∷ (g ∷ (h ∷ s))))))) e = absurd (cc)

pub validate-rotation_id :
    (q : PendingRotation) (r : Answer)
    → validate_rotation_response q r ≡ none
    → r.rotation_id ≡ q.rotation_id
unfolding validate_rotation_response
validate-rotation_id q r e = ground (arith, bytes_eq_iff r.rotation_id q.rotation_id)

pub validate-active :
    (q : PendingRotation) (r : Answer)
    → validate_rotation_response q r ≡ none
    → to_upper r.status ≡ status_active
    → validate_active q r ≡ none
unfolding validate_rotation_response
validate-active q r e a =
    let same : status_of r ≡ status_active = ap to_upper (active-trim r.status a) ∙ a in
    ground (arith, bytes_eq_iff (status_of r) status_active)

pub validate-key_id :
    (q : PendingRotation) (r : Answer) → validate_active q r ≡ none → r.key_id ≡ q.new_key_id
unfolding validate_active
validate-key_id q r e = ground (arith, bytes_eq_iff r.key_id q.new_key_id)

pub validate-public :
    (q : PendingRotation) (r : Answer)
    → validate_active q r ≡ none
    → r.new_public_key ≡ q.new_public_key
unfolding validate_active
validate-public q r e = ground (arith, bytes_eq_iff r.new_public_key q.new_public_key)

pub validate-named :
    (q : PendingRotation) (r : Answer)
    → validate_active q r ≡ none
    → is_empty (trim_space q.new_key_id) ≡ false
unfolding validate_active
validate-named q r e = ground arith
