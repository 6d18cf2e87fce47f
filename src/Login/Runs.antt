-- ===== src/Login/Runs.antt =====
-- How many failing logins a bucket lets through to the check of the password.
use prj_app.Base.{
  ℕ, ◌≡◌, ◌≤◌, ◌+◌, ◌-◌, ◌*◌, true, false, Option, none, some, List, Text, Table, lookup, arith,
  inl, inr, Option-cases, Bool-cases, if◌then◌else◌,
}
use prj_app.Model.{Db}
use prj_app.Login.{
  Bucket, lockout, refresh, fresh_bucket, is_blocked, any_blocked, fail, lock_throttle_buckets,
  bucket_hashes, LoginState, authenticate, authenticate_login, conclude, known_user,
  try_canonicalize,
}
use prj_app.Login.Buckets.{
  contains, Once, bucket_hashes-Once, any_blocked-contains, lock-absent, lock-Once, register-absent,
  register-Once, remove_all-absent, remove_all-Once,
}
use prj_app.Login.Spans.{
  Span, opened, counted, Counted, opened-Counted, opened-inside, refresh-Counted, fail-Counted,
  few_in_window, later-Counted,
}

module _ (check : Db → Text → Text → Option ℕ) (user_bucket : ℕ → ℕ) (h : ℕ) where
  -- The buckets of a login.
  abbrev pub hashes_of : ℕ → Text → LoginState → List ℕ
  hashes_of ip soeid s = bucket_hashes ip (elim (known_user (try_canonicalize soeid) s.db) [
    | none ↦ none
    | some id ↦ some (user_bucket id)
  ])

  -- What a login adds to the window of the bucket `h`: nothing where it is not one of its buckets, a
  -- failure where no bucket blocks it and the password is wrong; a success ends the window.
  abbrev pub tally : ℕ → ℕ → Text → Text → LoginState → Option Span → Option Span
  tally ip now soeid password s w =
      let hashes = hashes_of ip soeid s in
      if contains h hashes
      then (if any_blocked now hashes (lock_throttle_buckets now hashes s.throttles)
          then some (opened now w)
          else elim (authenticate check s.db (try_canonicalize soeid) password) [
            | none ↦ some (counted now (opened now w))
            | some id ↦ none
          ])
      else w

  -- Logins at times that do not go back, from an empty bucket, with what other services do to the
  -- tables in between; the window of the bucket is counted along.
  pub data Run : Option Span → ℕ → LoginState → Type 0 where
    begin : (clock : ℕ) (s : LoginState) → lookup h s.throttles ≡ none → Run none clock s
    other :
        {w : Option Span} {clock : ℕ} {s : LoginState} (db : Db)
        → Run w clock s
        → Run w clock (record s { db = db })
    login :
        {w : Option Span} {clock : ℕ} {s : LoginState} (ip now : ℕ) (soeid password : Text)
        → Run w clock s
        → clock ≤ now
        → Run
            (tally ip now soeid password s w)
            now
            (authenticate_login check user_bucket ip now soeid password s).1

  -- The bucket of a window.
  abbrev pub Tracks : Option Span → ℕ → Table Bucket → Type 0
  Tracks none clock t = lookup h t ≡ none
  Tracks (some w) clock t = (b : Bucket) × (lookup h t ≡ some b) × Counted w clock b

  locked_Tracks :
      (now clock : ℕ) (w : Option Span) (hashes : List ℕ) (t : Table Bucket)
      → Once h hashes
      → clock ≤ now
      → Tracks w clock t
      → Tracks (some (opened now w)) now (lock_throttle_buckets now hashes t)
  locked_Tracks now clock none hashes t o le e = (
    refresh now (fresh_bucket now),
    ground (arith, lock-Once now h hashes t o),
    opened-Counted now,
  )
  locked_Tracks now clock (some w) hashes t o le (b, e, c) = (
    refresh now b,
    ground (arith, lock-Once now h hashes t o),
    refresh-Counted w clock now b c le,
  )

  later_Tracks :
      (w : Option Span) (clock now : ℕ) (t t' : Table Bucket)
      → clock ≤ now
      → lookup h t' ≡ lookup h t
      → Tracks w clock t
      → Tracks w now t'
  later_Tracks none clock now t t' le same e = ground arith
  later_Tracks (some w) clock now t t' le same (b, e, c) =
      (b, ground arith, later-Counted w clock now b c le)

  not_blocked :
      (now : ℕ) (b : Bucket) (hashes : List ℕ) (t : Table Bucket)
      → contains h hashes ≡ true
      → lookup h t ≡ some b
      → any_blocked now hashes t ≡ false
      → is_blocked now b ≡ false
  not_blocked now b hashes t named e free = elim (Bool-cases (is_blocked now b)) [
    | inl shut ↦ absurd (ground (arith, any_blocked-contains now h b hashes t named e shut))
    | inr fine ↦ fine
  ]

  login_Tracks :
      (w : Option Span) (clock ip now : ℕ) (soeid password : Text) (s : LoginState)
      → clock ≤ now
      → Tracks w clock s.throttles
      → Tracks
          (tally ip now soeid password s w)
          now
          (authenticate_login check user_bucket ip now soeid password s).1.throttles
  unfolding authenticate_login conclude
  login_Tracks w clock ip now soeid password s le x =
      let hashes = hashes_of ip soeid s in
      let locked = lock_throttle_buckets now hashes s.throttles in
      let after = (authenticate_login check user_bucket ip now soeid password s).1.throttles in
      elim (Bool-cases (contains h hashes)) [
        | inr absent ↦
            let apart : lookup h after ≡ lookup h s.throttles = ground (
              arith,
              lock-absent now h hashes s.throttles absent,
              register-absent now h hashes locked absent,
              remove_all-absent h hashes locked absent,
            ) in
            rw absent (later_Tracks w clock now s.throttles after le apart x)
        | inl named ↦
            let once = bucket_hashes-Once ip h _ named in
            let (b, e, c) = locked_Tracks now clock w hashes s.throttles once le x in
            elim (Bool-cases (any_blocked now hashes locked)) [
              | inl shut ↦ rw (named, shut) (b, e, c)
              | inr free ↦
                  elim (Option-cases (authenticate check s.db (try_canonicalize soeid) password)) [
                    | inl wrong ↦
                        rw (named, free, wrong)
                          (
                            fail now b,
                            register-Once now h b hashes locked once e,
                            fail-Counted (opened now w) now b c (opened-inside now w)
                                (not_blocked now b hashes locked named e free),
                          )
                    | inr (id, right) ↦
                        rw (named, free, right) (remove_all-Once h hashes locked once)
                  ]
            ]
      ]

  Run-Tracks :
      {w : Option Span} {clock : ℕ} {s : LoginState} → Run w clock s → Tracks w clock s.throttles
  Run-Tracks (begin clock s e) = e
  Run-Tracks (other db r) = Run-Tracks r
  Run-Tracks (login {w} {clock} {s} ip now soeid password r le) =
      login_Tracks w clock ip now soeid password s le (Run-Tracks r)

  -- Over any run of logins, whatever their addresses, names and passwords, that starts with no such
  -- bucket and never goes back in time: since the last success that names the bucket, one window of
  -- 15 minutes lets at most 19 failing logins that name it through to the check of the password:
  -- five at once, and then one a minute.
  pub failures_bounded :
      (w : Span) (clock : ℕ) (s : LoginState)
      → Run (some w) clock s
      → (w.count ≤ 19) × (5 ≤ w.count → w.count * lockout ≤ (w.last - w.start) + 5 * lockout)
  failures_bounded w clock s r =
      let (b, e, c) = Run-Tracks r in (few_in_window w clock b c, c.spaced)
