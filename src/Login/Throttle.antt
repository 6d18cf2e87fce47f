-- ===== src/Login/Throttle.antt =====
-- What a blocked bucket refuses.
use prj_app.Base.{
  ℕ, ◌≡◌, ◌<◌, ◌-◌, true, Option, none, some, List, [], ◌∷◌, Text, Table, lookup, insert, arith,
  lookup-insert, ◌⊎◌, inl, inr, Option-cases,
}
use prj_app.Model.{Db}
use prj_app.Login.Buckets.{contains, any_blocked-contains}
use prj_app.Login.{
  Bucket, failure_window, refresh, fresh_bucket, is_blocked, lock_throttle_buckets, bucket_hashes,
  LoginState, authenticate_login, known_user, try_canonicalize,
}

-- A blocked bucket of a window that has not ended is left as it is.
refresh_blocked :
    (now : ℕ) (b : Bucket)
    → is_blocked now b ≡ true
    → now - b.window_started_at < failure_window
    → refresh now b ≡ b
unfolding is_blocked refresh
refresh_blocked now b h w = ground arith

lock-lookup :
    (now h : ℕ) (b : Bucket) (hs : List ℕ) (t : Table Bucket)
    → refresh now b ≡ b
    → lookup h t ≡ some b
    → lookup h (lock_throttle_buckets now hs t) ≡ some b
unfolding lock_throttle_buckets
lock-lookup now h b [] t same e = e
lock-lookup now h b (k ∷ ks) t same e = elim (Option-cases (lookup k t)) [
  | inl f ↦
      let next = insert k (refresh now (fresh_bucket now)) t in
      rw (f, lock_throttle_buckets)
        (lock-lookup now h b ks next same
          (ground (arith, lookup-insert k h (refresh now (fresh_bucket now)) t)))
  | inr (c, f) ↦
      rw (f, lock_throttle_buckets)
        (lock-lookup now h b ks (insert k (refresh now c) t) same
          (ground (arith, lookup-insert k h (refresh now c) t)))
]

named :
    (ip h : ℕ) (user_bucket : ℕ → ℕ) (user : Option ℕ)
    → (h ≡ ip) ⊎ ((id : ℕ) × (user ≡ some id) × (h ≡ user_bucket id))
    → contains h (bucket_hashes ip (elim user [ none ↦ none | some id ↦ some (user_bucket id) ]))
      ≡ true
unfolding bucket_hashes
named ip h user_bucket none w = ground arith
named ip h user_bucket (some id) w = ground arith

-- While the bucket of the address, or that of the known user, is blocked within its window, every
-- attempt fails, whatever the password, and leaves the tables of the program alone.
pub blocked_refuses :
    (check : Db → Text → Text → Option ℕ) (user_bucket : ℕ → ℕ) (ip now h : ℕ)
    (soeid password : Text) (s : LoginState) (b : Bucket)
    → (h ≡ ip)
      ⊎ ((id : ℕ) × (known_user (try_canonicalize soeid) s.db ≡ some id) × (h ≡ user_bucket id))
    → lookup h s.throttles ≡ some b
    → is_blocked now b ≡ true
    → now - b.window_started_at < failure_window
    → let (user, s') = authenticate_login check user_bucket ip now soeid password s in
      (user ≡ none) × (s'.db ≡ s.db) × (lookup h s'.throttles ≡ some b)
unfolding authenticate_login
blocked_refuses check user_bucket ip now h soeid password s b whose e p w =
    let hashes : List ℕ = bucket_hashes ip (elim (known_user (try_canonicalize soeid) s.db) [
      | none ↦ none
      | some id ↦ some (user_bucket id)
    ]) in
    let locked = lock_throttle_buckets now hashes s.throttles in
    let kept = lock-lookup now h b hashes s.throttles (refresh_blocked now b p w) e in
    let stops =
      any_blocked-contains now h b hashes locked
        (named ip h user_bucket (known_user (try_canonicalize soeid) s.db) whose) kept p in
    (ground (arith, stops), ground (arith, stops), ground (arith, stops, kept))
