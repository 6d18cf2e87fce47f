-- ===== src/Login/Buckets.antt =====
-- What an attempt does to one bucket of the throttle, among those that it locks.
use prj_app.Base.{
  ℕ, ◌≡◌, refl, Bool, true, false, Option, none, some, List, [], ◌∷◌, Table, lookup, insert, arith,
  lookup-insert, ◌==◌, ◌||◌, ◌⊎◌, inl, inr, Option-cases, Bool-cases, if◌then◌else◌, ltb,
}
use prj_app.Login.{
  Bucket, refresh, fresh_bucket, is_blocked, any_blocked, fail, lock_throttle_buckets,
  register_failure, remove, remove_all, bucket_hashes,
}

abbrev pub contains : ℕ → List ℕ → Bool
contains h [] = false
contains h (k ∷ ks) = k == h || contains h ks

-- A hash that stands in a list, and only once.
abbrev pub Once : ℕ → List ℕ → Type 0
Once h [] = ⊥
Once h (k ∷ ks) = (((k == h) ≡ true) × (contains h ks ≡ false)) ⊎ (((k == h) ≡ false) × Once h ks)

two_Once : (a b h : ℕ) → (a == b) ≡ false → contains h (a ∷ b ∷ []) ≡ true → Once h (a ∷ b ∷ [])
two_Once a b h e c = elim (Bool-cases (a == h)) [
  | inl first ↦ inl (first, ground arith)
  | inr other ↦ inr (other, inl (ground arith, refl))
]

pub bucket_hashes-Once :
    (ip h : ℕ) (user : Option ℕ)
    → contains h (bucket_hashes ip user) ≡ true
    → Once h (bucket_hashes ip user)
unfolding bucket_hashes
bucket_hashes-Once ip h none c = inl (ground arith, refl)
bucket_hashes-Once ip h (some user) c = elim (Bool-cases (ip == user)) [
  | inl e ↦ rw (bucket_hashes, e) (inl (ground arith, refl))
  | inr e ↦ elim (Bool-cases (ltb ip user)) [
    | inl less ↦ rw (bucket_hashes, e, less) (two_Once ip user h e (ground arith))
    | inr more ↦ rw (bucket_hashes, e, more) (two_Once user ip h (ground arith) (ground arith))
  ]
]

pub any_blocked-contains :
    (now h : ℕ) (b : Bucket) (hs : List ℕ) (t : Table Bucket)
    → contains h hs ≡ true
    → lookup h t ≡ some b
    → is_blocked now b ≡ true
    → any_blocked now hs t ≡ true
unfolding any_blocked
any_blocked-contains now h b [] t c e p = absurd (ground arith)
any_blocked-contains now h b (k ∷ ks) t c e p = ground (arith, any_blocked-contains now h b ks t)

pub lock-absent :
    (now h : ℕ) (hs : List ℕ) (t : Table Bucket)
    → contains h hs ≡ false
    → lookup h (lock_throttle_buckets now hs t) ≡ lookup h t
unfolding lock_throttle_buckets
lock-absent now h [] t c = refl
lock-absent now h (k ∷ ks) t c = elim (Option-cases (lookup k t)) [
  | inl f ↦
      let n = refresh now (fresh_bucket now) in
      ground (arith, lock-absent now h ks (insert k n t), lookup-insert k h n t)
  | inr (b, f) ↦
      let n = refresh now b in
      ground (arith, lock-absent now h ks (insert k n t), lookup-insert k h n t)
]

-- The bucket that an attempt finds, or makes.
abbrev pub found : ℕ → Option Bucket → Bucket
found now none = fresh_bucket now
found now (some b) = b

pub lock-Once :
    (now h : ℕ) (hs : List ℕ) (t : Table Bucket)
    → Once h hs
    → lookup h (lock_throttle_buckets now hs t) ≡ some (refresh now (found now (lookup h t)))
unfolding lock_throttle_buckets
lock-Once now h [] t o = absurd o
lock-Once now h (k ∷ ks) t (inl (same, gone)) =
    let here : k ≡ h = ground arith in
    elim (Option-cases (lookup k t)) [
      | inl f ↦
          let n = refresh now (fresh_bucket now) in
          let f' : lookup h t ≡ none = ground arith in
          rw (lock_throttle_buckets, f, f')
            (ground (arith, lock-absent now h ks (insert k n t) gone, lookup-insert k h n t))
      | inr (b, f) ↦
          let n = refresh now b in
          let f' : lookup h t ≡ some b = ground arith in
          rw (lock_throttle_buckets, f, f')
            (ground (arith, lock-absent now h ks (insert k n t) gone, lookup-insert k h n t))
    ]
lock-Once now h (k ∷ ks) t (inr (other, o)) = elim (Option-cases (lookup k t)) [
  | inl f ↦
      let n = refresh now (fresh_bucket now) in
      let same : lookup h (insert k n t) ≡ lookup h t = ground (arith, lookup-insert k h n t) in
      rw (lock_throttle_buckets, f, ← same) (lock-Once now h ks (insert k n t) o)
  | inr (b, f) ↦
      let n = refresh now b in
      let same : lookup h (insert k n t) ≡ lookup h t = ground (arith, lookup-insert k h n t) in
      rw (lock_throttle_buckets, f, ← same) (lock-Once now h ks (insert k n t) o)
]

pub register-absent :
    (now h : ℕ) (hs : List ℕ) (t : Table Bucket)
    → contains h hs ≡ false
    → lookup h (register_failure now hs t) ≡ lookup h t
unfolding register_failure
register-absent now h [] t c = refl
register-absent now h (k ∷ ks) t c = elim (Option-cases (lookup k t)) [
  | inl f ↦ ground (arith, register-absent now h ks t)
  | inr (b, f) ↦
      let n = fail now b in
      ground (arith, register-absent now h ks (insert k n t), lookup-insert k h n t)
]

pub register-Once :
    (now h : ℕ) (b : Bucket) (hs : List ℕ) (t : Table Bucket)
    → Once h hs
    → lookup h t ≡ some b
    → lookup h (register_failure now hs t) ≡ some (fail now b)
unfolding register_failure
register-Once now h b [] t o e = absurd o
register-Once now h b (k ∷ ks) t (inl (same, gone)) e =
    let here : lookup k t ≡ some b = ground arith in
    let n = fail now b in
    ground (arith, register-absent now h ks (insert k n t) gone, lookup-insert k h n t)
register-Once now h b (k ∷ ks) t (inr (other, o)) e = elim (Option-cases (lookup k t)) [
  | inl f ↦ ground (arith, register-Once now h b ks t o e)
  | inr (c, f) ↦
      let n = fail now c in
      ground (arith, register-Once now h b ks (insert k n t) o, lookup-insert k h n t)
]

lookup-remove :
    (k h : ℕ) (t : Table Bucket) → lookup h (remove k t) ≡ (if k == h then none else lookup h t)
unfolding lookup remove
lookup-remove k h [] = ground arith
lookup-remove k h ((i, b) ∷ t) = ground (arith, lookup-remove k h t)

pub remove_all-absent :
    (h : ℕ) (hs : List ℕ) (t : Table Bucket)
    → contains h hs ≡ false
    → lookup h (remove_all hs t) ≡ lookup h t
remove_all-absent h [] t c = refl
remove_all-absent h (k ∷ ks) t c =
    ground (arith, remove_all-absent h ks (remove k t), lookup-remove k h t)

remove_all-gone :
    (h : ℕ) (hs : List ℕ) (t : Table Bucket) → lookup h t ≡ none → lookup h (remove_all hs t) ≡ none
remove_all-gone h [] t e = e
remove_all-gone h (k ∷ ks) t e =
    remove_all-gone h ks (remove k t) (ground (arith, lookup-remove k h t))

pub remove_all-Once :
    (h : ℕ) (hs : List ℕ) (t : Table Bucket) → Once h hs → lookup h (remove_all hs t) ≡ none
remove_all-Once h [] t o = absurd o
remove_all-Once h (k ∷ ks) t (inl (same, gone)) =
    remove_all-gone h ks (remove k t) (ground (arith, lookup-remove k h t))
remove_all-Once h (k ∷ ks) t (inr (other, o)) = remove_all-Once h ks (remove k t) o
