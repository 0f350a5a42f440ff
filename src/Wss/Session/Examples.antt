-- ===== src/Wss/Session/Examples.antt =====
-- internal/hnieoj/wss/run.go: the authentication of a session at concrete inputs.
use go_judge.Prelude.{
  ◌≡◌, ◌≤◌, refl, Bool, true, false, Bytes, bytes_eq, codes, none, some, [], length, if◌then◌else◌,
}
use go_judge.Prelude.Int.{pos}
use go_judge.Wss.Session.{
  Identity, AuthOk, Grant, Ending, denied, apply_auth_ok, credential_of, session, auth_candidates,
}
use go_judge.Wss.Session.Challenge.{
  Challenge, AuthFields, Setting, authorizes, take_reply, respond_with_key,
}
use go_judge.Wss.Session.Granted.{IsGranted, IsProper, respond_with_key-IsGranted}
use go_judge.Wss.Session.Candidates.{AllRejected, IsPrefix, IsCurrentFirst, session-AllRejected}

abbrev identity : Identity
identity = record {
  node_id = codes "n";
  has_signing_key = λ id. bytes_eq id (codes "k1");
  current_key_id = codes "k1";
  pending_key_id = some (codes "k2");
  jwt_expiry_millis = λ token. pos 0;
}

abbrev auth_ok : AuthOk
auth_ok = record {
  node_id = codes "n";
  key_id = codes "k1";
  access_token = codes "t";
  access_expires_at = pos 9000;
  session_epoch = pos 4;
  authorization_until = pos 0;
  max_concurrency = pos 2;
  supported_judge_modes = [];
}

-- A session with epoch 4, whose authorization is renewed.
abbrev granted : Grant
granted = record { epoch = pos 4; cred = credential_of auth_ok (pos 8000) (pos 4) }

abbrev renewed : Grant
renewed = record { epoch = pos 4; cred = credential_of auth_ok (pos 9000) (pos 4) }

abbrev challenge : Challenge
challenge = record {
  challenge_id = codes "c";
  nonce = codes "x";
  audience = codes "judge";
  expires_at = pos 700;
}

abbrev setting : Setting
setting = record {
  audience = codes "judge";
  now = pos 600;
  signs = λ pending f. true;
  sends = true;
}

respond_with_key-IsGranted_example :
    ((f : AuthFields) × ((respond_with_key setting identity true [] false
          (authorizes auth_ok)
          challenge
          granted).0
        ≡ some f)
      × IsProper setting identity challenge f)
    × ((p : AuthOk) × (authorizes auth_ok ≡ authorizes p)
        × IsGranted identity true p granted renewed)
unfolding respond_with_key take_reply apply_auth_ok bytes_eq
respond_with_key-IsGranted_example =
    respond_with_key-IsGranted setting identity true [] false (authorizes auth_ok) challenge granted
      renewed refl

-- The server rejects the first key, and the second one is accepted.
abbrev ends : Bytes × Bool → Ending
ends x =
    if x.1
    then record { authenticated = true; error = none }
    else record { authenticated = false; error = some denied }

session-AllRejected_example :
    AllRejected ends (session identity ends false).0
    × IsPrefix (session identity ends false).0 (auth_candidates identity)
    × IsCurrentFirst identity (session identity ends false).0
    × (length (auth_candidates identity) ≤ 2)
session-AllRejected_example = session-AllRejected identity ends false
