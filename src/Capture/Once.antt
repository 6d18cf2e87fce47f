-- ===== src/Capture/Once.antt =====
-- An authorization is captured at most once, and a viewer's state never moves back.
use prj_app.Base.{
  ℕ, suc, ◌≡◌, ◌≤◌, refl, Bool, true, false, none, some, [], ◌∷◌, Table, lookup, insert, find_row,
  any_row, count_rows, ok, arith, ◌==◌, lookup-insert, any_row-count_rows, find_row_sound, Distinct,
  Option-cases, Bool-cases, inl, inr,
}
use prj_app.Model.{Db, RenderAuthorization, ViewerState, AuthorizedOpen}
use prj_app.Capture.{
  max, is_state_of, advance_viewer_state, open_of, store_open, capture_authorized_open,
}

count_rows-insert :
    (p : AuthorizedOpen → Bool) (k : ℕ) (o : AuthorizedOpen) (t : Table AuthorizedOpen)
    → lookup k t ≡ none
    → p o ≡ true
    → count_rows p (insert k o t) ≡ suc (count_rows p t)
unfolding lookup insert count_rows
count_rows-insert p k o [] e h = ground arith
count_rows-insert p k o ((j, r) ∷ t) e h = ground (arith, count_rows-insert p k o t)

-- What a capture that stores an open has found and written.
pub record Stored (open_id state_id id : ℕ) (db db' : Db) : Type 0 where
  pub r : RenderAuthorization
  pub version : ℕ
  pub source : lookup id db.renders ≡ some r
  pub unused : any_row (λ o. o.source_authorization == id) db.opens ≡ false
  pub opens : db'.opens ≡ insert open_id (open_of id r version) db.opens
  pub renders :
      db'.renders
      ≡ insert id (record r { authorized_open_captured_at = some r.created_at }) db.renders
  pub states : db'.viewer_states ≡ advance_viewer_state state_id r version db.viewer_states
  pub users : db'.users ≡ db.users
  pub dashboards : db'.dashboards ≡ db.dashboards
  pub revisions : db'.revisions ≡ db.revisions
  pub grants : db'.grants ≡ db.grants

store_open-Stored :
    (open_id state_id id version : ℕ) (r : RenderAuthorization) (db db' : Db)
    → lookup id db.renders ≡ some r
    → store_open open_id state_id id r version db ≡ (true, db')
    → Stored open_id state_id id db db'
unfolding store_open
store_open-Stored open_id state_id id version r db db' e h =
    elim (Bool-cases (any_row (λ o. o.source_authorization == id) db.opens)) [
      | inl used ↦ absurd (ground arith)
      | inr unused ↦ record {
        r = r;
        version = version;
        source = e;
        unused = unused;
        opens = ground arith;
        renders = ground arith;
        states = ground arith;
        users = ground arith;
        dashboards = ground arith;
        revisions = ground arith;
        grants = ground arith;
      }
    ]

pub capture-Stored :
    (open_id state_id id : ℕ) (db db' : Db)
    → capture_authorized_open open_id state_id id db ≡ ok (true, db')
    → Stored open_id state_id id db db'
unfolding capture_authorized_open
capture-Stored open_id state_id id db db' h = elim (Option-cases (lookup id db.renders)) [
  | inl e ↦ absurd (ground arith)
  | inr (r, e) ↦ elim (Option-cases r.publication_version) [
    | inl f ↦ absurd (ground arith)
    | inr (version, f) ↦ store_open-Stored open_id state_id id version r db db' e (ground arith)
  ]
]

-- A capture that stores an open leaves exactly one open of that authorization, and every further
-- capture of it, under whatever identifiers, stores none and changes nothing.
pub capture_once :
    (open_id state_id later_open later_state id : ℕ) (db db' : Db)
    → lookup open_id db.opens ≡ none
    → capture_authorized_open open_id state_id id db ≡ ok (true, db')
    → (count_rows (λ o. o.source_authorization == id) db'.opens ≡ 1)
      × (capture_authorized_open later_open later_state id db' ≡ ok (false, db'))
unfolding capture_authorized_open
capture_once open_id state_id later_open later_state id db db' fresh h =
    let s = capture-Stored open_id state_id id db db' h in
    let p : AuthorizedOpen → Bool = λ o. o.source_authorization == id in
    let before = any_row-count_rows p db.opens s.unused in
    let more =
      count_rows-insert p open_id (open_of id s.r s.version) db.opens fresh (ground arith) in
    let stamped =
      lookup-insert id id (record s.r { authorized_open_captured_at = some s.r.created_at })
        db.renders in
    (ground (arith, s.opens, before, more), ground (arith, s.renders, stamped))

-- Capturing an open never moves a stored viewer state back: the last view and the seen version of
-- each state are the same afterwards or later, for the same user and dashboard.
pub capture_grows :
    (open_id state_id id i : ℕ) (db db' : Db) (v : ViewerState)
    → Distinct db.viewer_states
    → lookup state_id db.viewer_states ≡ none
    → capture_authorized_open open_id state_id id db ≡ ok (true, db')
    → lookup i db.viewer_states ≡ some v
    → (w : ViewerState) × (lookup i db'.viewer_states ≡ some w)
      × (w.user ≡ v.user)
      × (w.dashboard ≡ v.dashboard)
      × (v.last_viewed_at ≤ w.last_viewed_at)
      × (v.seen_publication_version ≤ w.seen_publication_version)
unfolding advance_viewer_state
capture_grows open_id state_id id i db db' v distinct fresh h e =
    let s = capture-Stored open_id state_id id db db' h in
    let states = s.states in
    elim (Option-cases (find_row (is_state_of s.r.viewer s.r.dashboard) db.viewer_states)) [
      | inl none_yet ↦ (
        v,
        ground (
          arith,
          lookup-insert state_id i
              (record {
                user = s.r.viewer;
                dashboard = s.r.dashboard;
                last_viewed_at = s.r.created_at;
                seen_publication_version = s.version;
              })
              db.viewer_states,
        ),
        refl,
        refl,
        omega arith,
        omega arith,
      )
      | inr ((k, o), found) ↦
          let at =
            find_row_sound (is_state_of s.r.viewer s.r.dashboard) db.viewer_states {k = k} {v = o}
              distinct found in
          let w : ViewerState = record o {
            last_viewed_at = max o.last_viewed_at s.r.created_at;
            seen_publication_version = max o.seen_publication_version s.version;
          } in
          let written = lookup-insert k i w db.viewer_states in
          elim (Bool-cases (k == i)) [
            | inl hit ↦
                let same : o ≡ v = ground (arith, at.0) in
                (
                  w,
                  ground (arith, written),
                  ground (arith, same),
                  ground (arith, same),
                  ground (arith, same),
                  ground (arith, same),
                )
            | inr miss ↦ (v, ground (arith, written), refl, refl, omega arith, omega arith)
          ]
    ]
