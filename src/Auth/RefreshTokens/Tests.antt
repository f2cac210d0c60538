-- ===== src/Auth/RefreshTokens/Tests.antt =====
-- The theorems on refresh tokens, applied to a login and the rotation of its token. The digest of
-- these tests tells the two tokens apart.
use what_a_secure_app_should.Base.{
  ℕ, String, ◌+◌, ◌≡◌, refl, ◌≢◌, none, some, [], arith, count_where, if◌then◌else◌,
}
use what_a_secure_app_should.Base.Bytes.{bytes_eq}
use what_a_secure_app_should.Base.Text.{utf8}
use what_a_secure_app_should.Base.Outcome.{ok, err, replay_detected}
use what_a_secure_app_should.Packages.{Hashlib}
use what_a_secure_app_should.Core.Config.{default_settings, Clock}
use what_a_secure_app_should.Db.{Session, add_session, update_session}
use what_a_secure_app_should.Auth.RefreshTokens.{
  IssuedRefresh, Draws, first_session, revoke_family, Sessions, hash_token, issue_initial,
  active_in, find_by_hash, rotate, successor_of, replaced, revoke_all_for_user,
}
use what_a_secure_app_should.Auth.RefreshTokens.Families.{IsValid}
use what_a_secure_app_should.Auth.RefreshTokens.Rotation.{rotate_again}
use what_a_secure_app_should.Auth.RefreshTokens.Histories.{
  Reach, here, next, login, refresh, revoke_all, Reach-IsValid,
}
use what_a_secure_app_should.Auth.RefreshTokens.Standing.{live, tokens}
use what_a_secure_app_should.Auth.RefreshTokens.Refinement.{
  digest, Presents, is_taken, rotate-Presents,
}
use what_a_secure_app_should.Auth.RefreshTokens.Lifecycle.{Ages, Reach-Ages}
use what_a_secure_app_should.Auth.RefreshTokens.Once.{rotates_once}
use what_a_secure_app_should.Auth.RefreshTokens.Finality.{replay_is_final}

abbrev sha : Hashlib
sha = record {
  sha256_digest = λ d. d;
  sha256_hexdigest = λ d. if bytes_eq d (utf8 "a") then "hash of a" else "hash of b";
}

abbrev clock : Clock
clock i = 100 + i

abbrev draw_a : Draws
draw_a = record { raw = "a"; family = 5; id = 1 }

abbrev draw_b : Draws
draw_b = record { raw = "b"; family = 0; id = 2 }

-- The table after a login of user 7, and after the rotation of its token.
abbrev logged_in : Sessions
logged_in = (issue_initial default_settings sha clock draw_a 7 none none []).1

abbrev refreshed : Sessions
refreshed = (rotate default_settings sha clock draw_b "a" logged_in).1

no_sessions-IsValid : IsValid []
no_sessions-IsValid = record { unique_ids = tt; one_active = λ f. omega arith }

history : Reach default_settings sha [] refreshed
history =
    next (next here (login clock draw_a 7 none none refl refl)) (refresh clock draw_b "a" refl)

logged_in-IsValid : IsValid logged_in
logged_in-IsValid =
    Reach-IsValid default_settings sha no_sessions-IsValid
      (next here (login clock draw_a 7 none none refl refl))

Reach-IsValid_example : IsValid refreshed
Reach-IsValid_example = Reach-IsValid default_settings sha no_sessions-IsValid history

rotate-Presents_example :
    Presents default_settings sha clock draw_b "a"
      (is_taken 2 (digest sha "b") logged_in)
      (tokens logged_in)
      (tokens refreshed)
      (rotate default_settings sha clock draw_b "a" logged_in).0
rotate-Presents_example =
    rotate-Presents default_settings sha clock draw_b "a" logged_in logged_in-IsValid

Reach-Ages_example : Ages (tokens logged_in (digest sha "a")) (tokens refreshed (digest sha "a"))
Reach-Ages_example =
    Reach-Ages default_settings sha logged_in-IsValid (next here (refresh clock draw_b "a" refl))
      (digest sha "a")

abbrev session_a : Session
session_a = first_session default_settings sha clock draw_a 7 none none

abbrev session_b : Session
session_b = successor_of default_settings sha clock draw_b session_a

abbrev issued_b : IssuedRefresh
issued_b = record { raw_token = "b"; session = session_b }

rotated_a : rotate default_settings sha clock draw_b "a" logged_in ≡ (ok issued_b, refreshed)
unfolding rotate issue_initial add_session hash_token utf8
rotated_a = refl

rotate_again_example :
    ((rotate default_settings sha clock draw_a "a" refreshed).0
      ≡ err (replay_detected "refresh token replay"))
    × (count_where (active_in 5) (rotate default_settings sha clock draw_a "a" refreshed).1 ≡ 0)
unfolding hash_token
rotate_again_example =
    rotate_again default_settings sha clock clock draw_b draw_a "a" logged_in refreshed issued_b
      rotated_a

rotates_once_example :
    ((rotate default_settings sha clock draw_a "a" (revoke_all_for_user clock 7 refreshed).1).0
      ≡ err (replay_detected "refresh token replay"))
    × ((x : String) (user expires : ℕ)
        → tokens
            (rotate default_settings sha clock draw_a "a"
              (revoke_all_for_user clock 7 refreshed).1).1
            x
          ≢ live user 5 expires)
rotates_once_example =
    rotates_once default_settings sha clock clock draw_b draw_a "a" logged_in refreshed
      (revoke_all_for_user clock 7 refreshed).1 issued_b logged_in-IsValid rotated_a
      (next here (revoke_all clock 7 refl))

-- The table after the token was presented once more.
abbrev replayed_a : Sessions
replayed_a = (rotate default_settings sha clock draw_a "a" refreshed).1

found_a : find_by_hash (hash_token sha "a") refreshed ≡ some (replaced clock session_b session_a)
unfolding rotate issue_initial add_session hash_token update_session utf8
found_a = refl

found_b :
    find_by_hash (hash_token sha "b") replayed_a ≡ some (record session_b { revoked_at = some 100 })
unfolding rotate issue_initial add_session hash_token update_session revoke_family utf8
found_b = refl

replay_is_final_example : (rotate default_settings sha clock draw_b "b" replayed_a).0 ≢ ok issued_b
replay_is_final_example =
    replay_is_final default_settings sha clock clock draw_a draw_b "a" "b" refreshed replayed_a
      (replaced clock session_b session_a) (record session_b { revoked_at = some 100 }) 103 issued_b
      Reach-IsValid_example found_a refl here found_b refl
