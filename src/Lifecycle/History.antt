-- ===== src/Lifecycle/History.antt =====
-- Sequences of saves: a dashboard's history, and what no history changes.
use prj_app.Base.{
  ℕ, ◌≡◌, ◌≤◌, refl, true, false, Option, none, some, Table, ok, arith, is_some, opt_eq_sound, ◌∙◌,
}
use prj_app.Model.{Dashboard, Revision, State, is_published, is_deleted}
use prj_app.Lifecycle.{save, save_new, advance, moved_back}
use prj_app.Lifecycle.Invariant.{
  IsConsistent, IsTransition, save-inversion, check_transition-IsTransition,
  full_clean-IsConsistent,
}

-- One stored row replaces another: a save of any values at any time.
pub data Step (o : Dashboard) : Dashboard → Type 0 where
  saved :
      {e : Dashboard} (now : ℕ) (revisions : Table Revision) (id : ℕ) (d : Dashboard)
      → save now revisions id o d ≡ ok e
      → Step o e

pub data Reach (o : Dashboard) : Dashboard → Type 0 where
  here : Reach o o
  next : {d e : Dashboard} → Reach o d → Step d e → Reach o e

-- Every save that succeeds, of any values over any stored row, leaves a consistent row: it is
-- published exactly where it shows a revision, drafts have no first publication and the other
-- working states have one, the version is 0 exactly where there is no last publication and positive
-- where it is published, and a freshness interval comes with its confirmation and its end.
pub Step-IsConsistent : {o e : Dashboard} → Step o e → IsConsistent e
Step-IsConsistent {o} {e} (saved now revisions id d h) =
    full_clean-IsConsistent revisions id e (save-inversion now revisions id o d e h).2

pub Step-IsTransition : {o e : Dashboard} → Step o e → IsTransition o e
Step-IsTransition {o} {e} (saved now revisions id d h) =
    check_transition-IsTransition o e (save-inversion now revisions id o d e h).1

-- A new dashboard is a consistent private draft.
pub save_new-IsConsistent :
    (revisions : Table Revision) (id : ℕ) (d e : Dashboard)
    → save_new revisions id d ≡ ok e
    → IsConsistent e × (e.state ≡ State.draft) × (e.publication_version ≡ 0)
unfolding save_new
save_new-IsConsistent revisions id d e h =
    (full_clean-IsConsistent revisions id e (ground arith), ground arith, ground arith)

pub Reach-IsConsistent : {o e : Dashboard} → IsConsistent o → Reach o e → IsConsistent e
Reach-IsConsistent c here = c
Reach-IsConsistent c (next r s) = Step-IsConsistent s

advance_pins :
    (now : ℕ) (o d : Dashboard)
    → is_published (advance now o d).state ≡ true
    → is_some (advance now o d).published_revision ≡ true
    → (advance now o d).publication_version ≡ o.publication_version
    → (is_published o.state ≡ true) × ((advance now o d).published_revision ≡ o.published_revision)
unfolding advance
advance_pins now o d p s v =
    (ground arith, ground (arith, opt_eq_sound d.published_revision o.published_revision))

-- A published row at the version of the row before it shows the same revision.
pub Step-pins :
    {o e : Dashboard}
    → Step o e
    → is_published e.state ≡ true
    → e.publication_version ≡ o.publication_version
    → (is_published o.state ≡ true) × (e.published_revision ≡ o.published_revision)
Step-pins {o} {e} (saved now revisions id d h) p v =
    let c = Step-IsConsistent (saved now revisions id d h) in
    let inv = save-inversion now revisions id o d e h in ground (arith, advance_pins now o d)

-- The fields that only grow, or stay, between two rows.
pub record IsLater (o e : Dashboard) : Type 0 where
  pub version : o.publication_version ≤ e.publication_version
  pub owner : e.owner ≡ o.owner
  pub epoch : e.last_ownership_transfer ≡ o.last_ownership_transfer
  pub first : (t : ℕ) → o.first_published_at ≡ some t → e.first_published_at ≡ some t
  pub last : moved_back o.last_published_at e.last_published_at ≡ false

moved_back_refl : (a : Option ℕ) → moved_back a a ≡ false
unfolding moved_back
moved_back_refl none = refl
moved_back_refl (some t) = ground arith

moved_back_trans :
    (a b c : Option ℕ) → moved_back a b ≡ false → moved_back b c ≡ false → moved_back a c ≡ false
unfolding moved_back
moved_back_trans none b c h k = refl
moved_back_trans (some t) b c h k = ground arith

advance_owner :
    (now : ℕ) (o d : Dashboard)
    → ((advance now o d).owner ≡ d.owner)
      × ((advance now o d).last_ownership_transfer ≡ d.last_ownership_transfer)
unfolding advance
advance_owner now o d = (ground arith, ground arith)

Step-IsLater : {o e : Dashboard} → Step o e → IsLater o e
Step-IsLater {o} {e} (saved now revisions id d h) =
    let t = Step-IsTransition (saved now revisions id d h) in
    let inv = save-inversion now revisions id o d e h in
    let own = advance_owner now o d in
    record {
      version = t.not_less;
      owner = ground arith;
      epoch = ground arith;
      first = t.first;
      last = t.forward;
    }

-- No sequence of saves lowers the publication version, changes the owner or the ownership epoch,
-- moves the last publication back or changes the time of the first one that was set.
pub Reach-IsLater : {o e : Dashboard} → Reach o e → IsLater o e
Reach-IsLater {o} here = record {
  version = omega arith;
  owner = refl;
  epoch = refl;
  first = λ t h. h;
  last = moved_back_refl o.last_published_at;
}
Reach-IsLater {o} {e} (next {d = d} r s) =
    let a = Reach-IsLater r in
    let b = Step-IsLater s in
    record {
      version = omega arith;
      owner = b.owner ∙ a.owner;
      epoch = b.epoch ∙ a.epoch;
      first = λ t h. b.first t (a.first t h);
      last =
          moved_back_trans o.last_published_at d.last_published_at e.last_published_at a.last
            b.last;
    }

-- Whatever sequence of saves leads from a published row to another of the same publication version,
-- both show the same revision: a version pins its revision.
pub Reach-pins :
    {o e : Dashboard}
    → Reach o e
    → is_published o.state ≡ true
    → is_published e.state ≡ true
    → e.publication_version ≡ o.publication_version
    → e.published_revision ≡ o.published_revision
Reach-pins here p q v = refl
Reach-pins {o} {e} (next {d = d} r s) p q v =
    let a = Reach-IsLater r in
    let b = Step-IsLater s in
    let same = Step-pins s q (omega arith) in same.1 ∙ Reach-pins r p same.0 (omega arith)

-- A deleted dashboard is terminal.
pub Reach-deleted : {o e : Dashboard} → is_deleted o.state ≡ true → Reach o e → e ≡ o
Reach-deleted p here = refl
Reach-deleted {o} p (next {d = d} r s) =
    let t = Step-IsTransition s in let same = Reach-deleted p r in absurd (ground arith)
