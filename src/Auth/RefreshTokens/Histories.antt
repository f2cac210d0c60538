-- ===== src/Auth/RefreshTokens/Histories.antt =====
-- Histories of the table: any sequence of logins, rotations and revocations.
use what_a_secure_app_should.Base.{
  ℕ, suc, ◌≡◌, refl, ap, ◌≢◌, inl, inr, Bool, true, false, Bool-cases, Option, some, String, [],
  ◌∷◌, ◌++◌, arith, ◌==◌, count_where, if◌then◌else◌,
}
use what_a_secure_app_should.Base.Outcome.{Result, Result-cases}
use what_a_secure_app_should.Packages.{Hashlib}
use what_a_secure_app_should.Core.Config.{Settings, Clock}
use what_a_secure_app_should.Db.{Session, is_active, any_session, add_session, update_session}
use what_a_secure_app_should.Db.Rows.{
  IsIn, UniqueIds, find_first-IsIn, count_pos, count-append, any-append, add_session_inv, no_clash,
  UniqueIds-append, UniqueIds-update_session, count-update_session, any-update_session, IsIn-append,
}
use what_a_secure_app_should.Auth.RefreshTokens.{
  IssuedRefresh, Draws, Sessions, first_session, issue_initial, revoke_where, active_in,
  revoke_family, successor_of, replaced, rotate, revoke_session, active_of, revoke_all_for_user,
}
use what_a_secure_app_should.Auth.RefreshTokens.Families.{
  IsValid, in_family, IsFresh, active_in-Active, count-revoke_where-le, revoke_where-IsValid,
  issue_initial-IsValid,
}
use what_a_secure_app_should.Auth.RefreshTokens.Rotation.{
  Ends, unknown, replayed, expired, clashed, rotated, rotate-Ends, rotate-IsValid,
}

module _ (cfg : Settings) (sha : Hashlib) where
  -- One call on the table. A login draws a family that is in no row.
  pub data Step (rows rows' : Sessions) : Type 0 where
    login :
        (now : Clock) (new : Draws) (user_id : ℕ) (user_agent ip_hash : Option String)
        → IsFresh new.family rows
        → rows' ≡ (issue_initial cfg sha now new user_id user_agent ip_hash rows).1
        → Step rows rows'
    refresh :
        (now : Clock) (new : Draws) (raw_token : String)
        → rows' ≡ (rotate cfg sha now new raw_token rows).1
        → Step rows rows'
    revoke_one :
        (now : Clock) (s : Session)
        → IsIn s rows
        → rows' ≡ revoke_session now s rows
        → Step rows rows'
    revoke_all :
        (now : Clock) (user_id : ℕ)
        → rows' ≡ (revoke_all_for_user now user_id rows).1
        → Step rows rows'

  pub data Reach (rows : Sessions) : Sessions → Type 0 where
    here : Reach rows rows
    next : {before after : Sessions} → Reach rows before → Step before after → Reach rows after

  revoke_session-IsValid :
      (now : Clock) (s : Session) (rows : Sessions)
      → IsIn s rows
      → IsValid rows
      → IsValid (revoke_session now s rows)
  unfolding revoke_session
  revoke_session-IsValid now s rows m v = elim (Bool-cases (is_active s)) [
    | inr revoked ↦ rw revoked v
    | inl active ↦
        let gone : Session = record s { revoked_at = some (now 0) } in
        rw active (record {
          unique_ids = UniqueIds-update_session gone rows v.unique_ids;
          one_active = λ f. ground (
            arith,
            v.one_active f,
            count-update_session (active_in f) gone s rows v.unique_ids m refl,
          );
        })
  ]

  Step-IsValid : {rows rows' : Sessions} → Step rows rows' → IsValid rows → IsValid rows'
  unfolding revoke_all_for_user
  Step-IsValid {rows} (login now new u a i fresh e) v =
      rw e (issue_initial-IsValid cfg sha now new u a i rows v fresh)
  Step-IsValid {rows} (refresh now new raw e) v = rw e (rotate-IsValid cfg sha now new raw rows v)
  Step-IsValid {rows} (revoke_one now s m e) v = rw e (revoke_session-IsValid now s rows m v)
  Step-IsValid {rows} (revoke_all now u e) v =
      rw e (revoke_where-IsValid (active_of u) now 0 rows v)

  -- From a valid table, every history of logins (each with a family that no row has), rotations
  -- and revocations keeps primary keys unique and at most one session of each family active.
  pub Reach-IsValid : {rows rows' : Sessions} → IsValid rows → Reach rows rows' → IsValid rows'
  Reach-IsValid v here = v
  Reach-IsValid v (next r s) = Step-IsValid s (Reach-IsValid v r)

  -- A family that has sessions and none of them active.
  pub record IsBurned (f : ℕ) (rows : Sessions) : Type 0 where
    pub used : any_session (in_family f) rows ≡ true
    pub no_active : count_where (active_in f) rows ≡ 0

  pub used_revoked :
      (f : ℕ) (p : Session → Bool) (now : Clock) (i : ℕ) (rows : Sessions)
      → any_session (in_family f) rows ≡ true
      → any_session (in_family f) (revoke_where p now i rows) ≡ true
  unfolding revoke_where
  used_revoked f p now i [] h = h
  used_revoked f p now i (s ∷ rows) h =
      ground (arith, used_revoked f p now (if p s then suc i else i) rows)

  revoke_where-IsBurned :
      (f : ℕ) (p : Session → Bool) (now : Clock) (i : ℕ) (rows : Sessions)
      → IsBurned f rows
      → IsBurned f (revoke_where p now i rows)
  revoke_where-IsBurned f p now i rows b = record {
    used = used_revoked f p now i rows b.used;
    no_active =
        omega (
          arith,
          b.no_active,
          count-revoke_where-le p (active_in f) now i rows (active_in-Active f),
        );
  }

  -- A row of another family leaves a burned family burned.
  append-IsBurned :
      (f : ℕ) (s : Session) (rows : Sessions)
      → s.session_family_id ≢ f
      → IsBurned f rows
      → IsBurned f (rows ++ (s ∷ []))
  append-IsBurned f s rows ne b = record {
    used = any-append (in_family f) rows s b.used;
    no_active = ground (arith, ne, b.no_active, count-append (active_in f) rows s);
  }

  -- An active session is in no burned family.
  pub active_elsewhere :
      (f : ℕ) (s : Session) (rows : Sessions)
      → IsBurned f rows
      → IsIn s rows
      → is_active s ≡ true
      → s.session_family_id ≢ f
  active_elsewhere f s rows b m a e =
      let p : active_in f s ≡ true = ground arith in
      omega (arith, count_pos (active_in f) rows s m p, b.no_active)

  update-IsBurned :
      (f : ℕ) (changed s : Session) (rows : Sessions)
      → UniqueIds rows
      → IsIn s rows
      → changed.id ≡ s.id
      → changed.session_family_id ≡ s.session_family_id
      → is_active changed ≡ false
      → IsBurned f rows
      → IsBurned f (update_session changed rows)
  update-IsBurned f changed s rows u m e fam gone b = record {
    used =
        any-update_session (in_family f) changed s rows m e (ap (λ (g : ℕ). g == f) fam) b.used u;
    no_active =
        ground (arith, b.no_active, count-update_session (active_in f) changed s rows u m e);
  }

  Ends-IsBurned :
      (f : ℕ) (now : Clock) (new : Draws) (raw : String) (rows : Sessions)
      {r : Result IssuedRefresh × Sessions}
      → Ends cfg sha now new raw rows r
      → IsValid rows
      → IsBurned f rows
      → IsBurned f r.1
  unfolding revoke_family
  Ends-IsBurned f now new raw rows (unknown e) v b = b
  Ends-IsBurned f now new raw rows (replayed s t e a) v b =
      revoke_where-IsBurned f (active_in s.session_family_id) now 0 rows b
  Ends-IsBurned f now new raw rows (expired s e a l) v b = b
  Ends-IsBurned f now new raw rows (clashed s e a l c) v b = b
  Ends-IsBurned f now new raw rows (rotated s e a l c) v b =
      let successor = successor_of cfg sha now new s in
      let m = (find_first-IsIn _ rows s e).0 in
      let ne = active_elsewhere f s rows b m (ground arith) in
      update-IsBurned f (replaced now successor s) s (rows ++ (successor ∷ []))
        (UniqueIds-append rows successor v.unique_ids (no_clash successor rows c))
        (IsIn-append rows s successor m) refl refl refl (append-IsBurned f successor rows ne b)

  issue_initial-IsBurned :
      (f : ℕ) (now : Clock) (new : Draws) (u : ℕ) (a i : Option String) (rows : Sessions)
      → IsFresh new.family rows
      → IsBurned f rows
      → IsBurned f (issue_initial cfg sha now new u a i rows).1
  unfolding issue_initial
  issue_initial-IsBurned f now new u a i rows fresh b =
      let s = first_session cfg sha now new u a i in
      elim (Result-cases (add_session s rows)) [
        | inr (x, e) ↦ rw e b
        | inl (rows', e) ↦
            rw (e, (add_session_inv s rows rows' e).0)
              (append-IsBurned f s rows (λ same. cc (rw same at fresh, b.used)) b)
      ]

  revoke_session-IsBurned :
      (f : ℕ) (now : Clock) (s : Session) (rows : Sessions)
      → IsIn s rows
      → IsValid rows
      → IsBurned f rows
      → IsBurned f (revoke_session now s rows)
  unfolding revoke_session
  revoke_session-IsBurned f now s rows m v b = elim (Bool-cases (is_active s)) [
    | inr revoked ↦ rw revoked b
    | inl active ↦ rw active (
        update-IsBurned f (record s { revoked_at = some (now 0) }) s rows v.unique_ids m refl refl
          refl b)
  ]

  Step-IsBurned :
      (f : ℕ) {rows rows' : Sessions}
      → Step rows rows'
      → IsValid rows
      → IsBurned f rows
      → IsBurned f rows'
  unfolding revoke_all_for_user
  Step-IsBurned f {rows} (login now new u a i fresh e) v b =
      rw e (issue_initial-IsBurned f now new u a i rows fresh b)
  Step-IsBurned f {rows} (refresh now new raw e) v b =
      rw e (Ends-IsBurned f now new raw rows (rotate-Ends cfg sha now new raw rows) v b)
  Step-IsBurned f {rows} (revoke_one now s m e) v b =
      rw e (revoke_session-IsBurned f now s rows m v b)
  Step-IsBurned f {rows} (revoke_all now u e) v b =
      rw e (revoke_where-IsBurned f (active_of u) now 0 rows b)

  pub Reach-IsBurned :
      (f : ℕ) {rows rows' : Sessions}
      → IsValid rows
      → IsBurned f rows
      → Reach rows rows'
      → IsBurned f rows'
  Reach-IsBurned f v b here = b
  Reach-IsBurned f v b (next r s) = Step-IsBurned f s (Reach-IsValid v r) (Reach-IsBurned f v b r)
