-- ===== src/Tests/Sharing.antt =====
-- Grants, access requests and transfers, on the sample tables.
use prj_app.Base.{
  ℕ, ◌≡◌, ◌≢◌, refl, true, false, none, some, [], ◌∷◌, ok, err, Error, lookup, insert, find_row,
  arith, inl,
}
use prj_app.Model.{Db, Dashboard, Status, Event, is_published}
use prj_app.Store.{has_active_grant}
use prj_app.RequestRow.{is_active}
use prj_app.Access.{grant_project_viewer, revoke_project_viewer, user_can_view_published}
use prj_app.Access.Grants.{GrantsValid}
use prj_app.Access.Viewing.{revoke_ends_access, grant_opens_access}
use prj_app.Requests.{
  request_dashboard_access, resolve_dashboard_access_request, resolved_request, after_request,
  request_event, is_request_of,
}
use prj_app.Requests.Invariant.{RequestsValid}
use prj_app.Requests.Asking.{asked, request_succeeds, request_requires}
use prj_app.Requests.Resolving.{approval_grants, refusal_succeeds}
use prj_app.Publication.{is_working}
use prj_app.Ownership.{Expected, is_expected, transfer_dashboard_ownership}
use prj_app.Ownership.Whole.{transfer_effect}
use prj_app.Ownership.Epochs.{EpochsStored, Later, stale_confirmation_denied}
use prj_app.Tests.World.{
  ascii, user, board, held, asked_for, world, tables, opened, world-GrantsValid,
  world-RequestsValid,
}

abbrev revoked : Db
revoked = tables (revoke_project_viewer 150 10 30 1 world)

revokes : revoke_project_viewer 150 10 30 1 world ≡ ok revoked
unfolding opened
revokes = refl

revoke_ends_access_example :
    (user_can_view_published 10 board 2 (user (b'B' ∷ []) true) none revoked.grants ≡ false)
    × (revoke_project_viewer 160 10 30 1 revoked ≡ ok revoked)
unfolding opened
revoke_ends_access_example =
    revoke_ends_access 150 160 10 30 1 world revoked board held (user (b'B' ∷ []) true)
      world-GrantsValid refl refl refl revokes

grant_opens_access_example :
    (db' : Db) × (grant_project_viewer 31 10 1 (32 ∷ b'c' ∷ []) world ≡ ok db')
    × (has_active_grant 10 3 db'.grants ≡ true)
    × (user_can_view_published 10 board 3 (user (b'C' ∷ []) true) none db'.grants ≡ true)
    × (db'.dashboards ≡ world.dashboards)
unfolding opened
grant_opens_access_example =
    grant_opens_access 31 10 1 3 (32 ∷ b'c' ∷ []) (b'C' ∷ []) world board (user (b'A' ∷ []) true)
      (user (b'C' ∷ []) false) refl refl refl refl refl refl refl refl (ground arith) refl

abbrev granted : Db
granted = tables (grant_project_viewer 31 10 1 (b'C' ∷ []) world)

abbrev approved : Db
approved = tables (resolve_dashboard_access_request 31 150 10 40 1 (some Status.approved) world)

approval_grants_example :
    (has_active_grant 10 3 approved.grants ≡ true)
    × GrantsValid approved
    × (lookup 40 approved.requests ≡ some (resolved_request Status.approved 150 1 asked_for))
    × (1 ≡ board.owner)
unfolding opened
approval_grants_example =
    approval_grants 31 150 10 40 1 world approved board asked_for world-GrantsValid refl refl refl
      refl

abbrev denied : Db
denied =
    after_request 40 (resolved_request Status.denied 150 1 asked_for)
      (request_event (Event.access_resolved 40 Status.denied) 1 10 3) world

denied-RequestsValid : RequestsValid denied
unfolding opened
denied-RequestsValid =
    (refusal_succeeds 31 150 10 40 1 Status.denied world board asked_for world-RequestsValid refl
      refl refl refl refl (inl (refl, refl))).1

abbrev asks_again : Db
asks_again = asked 41 160 10 3 [] denied (find_row (is_request_of 10 3) denied.requests)

request_succeeds_example :
    (request_dashboard_access ascii 41 160 10 3 [] denied ≡ ok asks_again)
    × RequestsValid asks_again
unfolding opened
request_succeeds_example =
    request_succeeds ascii 41 160 10 3 [] [] denied board denied-RequestsValid refl refl refl refl
      refl (ground arith) refl

abbrev requested : Db
requested = tables (request_dashboard_access ascii 41 160 10 3 [] denied)

request_requires_example :
    (d : Dashboard) × (lookup 10 denied.dashboards ≡ some d)
    × (is_published d.state ≡ true)
    × (is_active d.owner denied.users ≡ true)
    × (is_active 3 denied.users ≡ true)
    × (d.owner ≢ 3)
    × (has_active_grant 10 3 denied.grants ≡ false)
unfolding opened
request_requires_example = request_requires ascii 41 160 10 3 [] denied requested refl

-- User 2 takes the dashboard over, and user 1 takes it back.
abbrev moved : Db
moved = tables (transfer_dashboard_ownership 60 200 10 1 2 Expected.unset world)

moves : transfer_dashboard_ownership 60 200 10 1 2 Expected.unset world ≡ ok moved
unfolding opened
moves = refl

transfer_effect_example :
    (is_working board.state ≡ true)
    × (is_expected Expected.unset board ≡ true)
    × (board.owner ≡ 1)
    × (is_active 1 world.users ≡ true)
    × (is_active 2 world.users ≡ true)
    × (◌≢◌ {A = ℕ} 2 1)
    × (moved.dashboards
        ≡ insert 10
            (record board { owner = 2; last_ownership_transfer = some 60 })
            world.dashboards)
    × (moved.transfers
        ≡ insert 60
            (record { dashboard = 10; from_owner = 1; to_owner = 2; previous_transfer = none })
            world.transfers)
    × GrantsValid moved
    × RequestsValid moved
unfolding opened
transfer_effect_example =
    transfer_effect 60 200 10 1 2 Expected.unset world moved board world-GrantsValid
      world-RequestsValid refl moves

abbrev back : Db
back = tables (transfer_dashboard_ownership 61 300 10 2 1 Expected.unset moved)

moves_back : Later moved back
unfolding opened
moves_back = Later.next 61 300 10 2 1 Expected.unset Later.here refl refl

world-EpochsStored : EpochsStored world
unfolding opened
world-EpochsStored id d m e f = ground arith

stale_confirmation_denied_example :
    transfer_dashboard_ownership 62 400 10 1 3 (Expected.epoch none) back ≡ err Error.access_denied
unfolding opened
stale_confirmation_denied_example =
    stale_confirmation_denied 60 200 10 1 2 Expected.unset world moved back board world-GrantsValid
      world-RequestsValid world-EpochsStored refl refl moves moves_back 62 400 1 3
