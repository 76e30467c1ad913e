-- ===== src/Pool/Ends.antt =====
-- What the sections of internal/transport/imapclient/pool.go that end a dial, a borrow or a dedicated
-- connection do to the counts of a pool, and what `InvalidateCredentials` does.
use mail_cli.Common.{ℕ, suc, ◌+◌, ◌≤◌, ◌≡◌, refl, ◌∙◌, Bool, inl, inr}
use mail_cli.Common.{some, List, [], ◌∷◌, arith, String}
use mail_cli.Common.{length, length-append, total, total-append, bit, ◌==◌}
use mail_cli.Common.{Bool-cases, Option-cases, ==_iff}
use mail_cli.Pool.{
  PooledSession, OperationClass, mutation, AccountPool, sweep, unuse, remove_pooled_session,
  find_session, invalidate_all, signal_pool, dial_done, dial_failed, release_session, is_stale,
  dedicated_done, touch, dialed_session,
}
use mail_cli.Pool.Threads.{dialing, holding, dedicated_holding, leaving}
use mail_cli.Pool.Count.{
  present, used, used-le-present, total-sweep, total-sweep_kept, length-sweep, length-unuse,
  present-unuse, used-unuse, length-remove, total-remove, used-remove, length-touch, total-touch,
  length-invalidate_all, total-invalidate_all,
}
use mail_cli.Pool.Sections.{Sound, Moved, SameRest, Sound-shrink}

module _ {G : Type 0} {limit n : ℕ} {p : AccountPool G} (ok : Sound limit n p) where
  -- The dialled session is a new pointer, held by the thread that dialled.
  pub dial_done-Moved :
      (c : OperationClass) (generation : ℕ)
      → 1 ≤ p.connecting
      → Moved limit (suc n) p (dial_done n generation p) (dialing c generation) (some (holding c n))
  unfolding dial_done
  dial_done-Moved c generation h = record {
    connecting_eq = omega arith;
    dedicated_eq = refl;
    used_eq =
        λ id. ground (arith, total-append (used id) p.sessions (dialed_session n generation ∷ []));
    sound = record {
      fits = ground (arith, length-append p.sessions (dialed_session n generation ∷ []), ok.fits);
      distinct = λ id. ground (
        arith,
        total-append (present id) p.sessions (dialed_session n generation ∷ []),
        ok.distinct id,
        ok.fresh id,
        ==_iff n id,
      );
      fresh = λ id m. ground (
        arith,
        total-append (present id) p.sessions (dialed_session n generation ∷ []),
        ok.fresh id,
        ==_iff n id,
      );
    };
  }

  pub dial_failed-Moved :
      (c : OperationClass) (generation : ℕ)
      → 1 ≤ p.connecting
      → Moved limit n p (dial_failed p) (dialing c generation) (some (leaving c))
  unfolding dial_failed
  dial_failed-Moved c generation h = record {
    connecting_eq = omega arith;
    dedicated_eq = refl;
    used_eq = λ id. refl;
    sound = Sound-shrink ok c _ (omega (arith, ok.fits)) (λ id. omega arith);
  }

  pub dedicated_done-Moved :
      1 ≤ p.dedicated
      → Moved limit n p (dedicated_done p) dedicated_holding (some (leaving mutation))
  unfolding dedicated_done
  dedicated_done-Moved h = record {
    connecting_eq = refl;
    dedicated_eq = omega arith;
    used_eq = λ id. refl;
    sound = Sound-shrink ok mutation _ (omega (arith, ok.fits)) (λ id. omega arith);
  }

  pub touch-Moved :
      (c : OperationClass) (id : ℕ) (dirty : Bool) (selected : String) (uidvalidity : ℕ)
      → Moved limit n p
          (record p { sessions = touch id dirty selected uidvalidity p.sessions })
          (holding c id)
          (some (holding c id))
  touch-Moved c id dirty selected uidvalidity = record {
    connecting_eq = refl;
    dedicated_eq = refl;
    used_eq = λ j. omega (arith, (total-touch id dirty selected uidvalidity j p.sessions).1);
    sound =
        Sound-shrink ok c (record p { sessions = touch id dirty selected uidvalidity p.sessions })
          (omega (arith, length-touch id dirty selected uidvalidity p.sessions, ok.fits))
          (λ j. omega (arith, (total-touch id dirty selected uidvalidity j p.sessions).0));
  }

  -- The borrower's own session, and no other, stops being in use.
  release_used :
      (id j : ℕ)
      → 1 ≤ total (used id) p.sessions
      → total (used j) (unuse id p.sessions) + bit (id == j) ≡ total (used j) p.sessions
  release_used id j h =
      ground (
        arith,
        used-unuse id j p.sessions,
        used-le-present j p.sessions,
        ok.distinct j,
        ==_iff id j,
      )

  release-Moved :
      (c : OperationClass) (id : ℕ) (idle : List PooledSession)
      → 1 ≤ total (used id) p.sessions
      → length idle ≤ length p.sessions
      → ((j : ℕ) → total (present j) idle ≤ total (present j) p.sessions)
      → ((j : ℕ) → total (used j) idle ≡ total (used j) (unuse id p.sessions))
      → Moved limit n p
          (signal_pool (record p { sessions = idle }))
          (holding c id)
          (some (leaving c))
        × SameRest p (signal_pool (record p { sessions = idle }))
  unfolding signal_pool
  release-Moved c id idle h short le eq = (
    record {
      connecting_eq = refl;
      dedicated_eq = refl;
      used_eq = λ j. omega (arith, eq j, release_used id j h);
      sound = Sound-shrink ok c _ (omega (arith, ok.fits)) le;
    },
    (refl, refl),
  )

  unuse-Moved :
      (c : OperationClass) (id : ℕ)
      → 1 ≤ total (used id) p.sessions
      → Moved limit n p
          (signal_pool (record p { sessions = unuse id p.sessions }))
          (holding c id)
          (some (leaving c))
        × SameRest p (signal_pool (record p { sessions = unuse id p.sessions }))
  unuse-Moved c id h =
      release-Moved c id (unuse id p.sessions) h (omega (arith, length-unuse id p.sessions))
        (λ j. omega (arith, present-unuse id j p.sessions)) (λ j. refl)

  pub release_session-Moved :
      (c : OperationClass) (canceled : Bool) (generation id : ℕ)
      → 1 ≤ total (used id) p.sessions
      → Moved limit n p (release_session canceled generation id p) (holding c id) (some (leaving c))
        × SameRest p (release_session canceled generation id p)
  unfolding release_session
  release_session-Moved c canceled generation id h =
      elim (Option-cases (find_session id p.sessions)) [
        | inl e ↦ rw (e, release_session) (unuse-Moved c id h)
        | inr (q, e) ↦
            rw (e, release_session)
              (elim (Bool-cases (is_stale canceled generation q)) [
                | inl stale ↦
                    rw stale (release-Moved c id gone h short le (λ j. used-remove id j p.sessions))
                | inr good ↦ rw good (unuse-Moved c id h)
              ])
      ]
    where
      gone : List PooledSession
      gone = remove_pooled_session id (unuse id p.sessions)

      short : length gone ≤ length p.sessions
      short = omega (arith, length-remove id (unuse id p.sessions), length-unuse id p.sessions)

      le : (j : ℕ) → total (present j) gone ≤ total (present j) p.sessions
      le j =
          omega (
            arith,
            total-remove id (present j) (unuse id p.sessions),
            present-unuse id j p.sessions,
          )

  -- Invalidation removes idle sessions alone.
  abbrev pub invalidated : List PooledSession
  invalidated = (sweep (λ q. q.in_use) (invalidate_all p.sessions)).0

  pub invalidated-Sound :
      (used_kept : (j : ℕ) → total (used j) invalidated ≡ total (used j) p.sessions) × Sound limit n
        (signal_pool (record p { sessions = invalidated }))
  unfolding signal_pool
  invalidated-Sound = (
    λ j.
        total-sweep_kept (used j) (λ q. q.in_use) (λ q e. ground arith) (invalidate_all p.sessions)
        ∙ (total-invalidate_all j p.sessions).1,
    Sound-shrink ok mutation _
        (omega (
          arith,
          length-sweep (λ q. q.in_use) (invalidate_all p.sessions),
          length-invalidate_all p.sessions,
          ok.fits,
        ))
        (λ j. omega (
          arith,
          total-sweep (present j) (λ q. q.in_use) (invalidate_all p.sessions),
          (total-invalidate_all j p.sessions).0,
        )),
  )
