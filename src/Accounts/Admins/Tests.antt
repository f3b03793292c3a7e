-- ===== src/Accounts/Admins/Tests.antt =====
-- A profile for a user without one.
use backend_task_management.Base.{◌≡◌, refl, none, true, false, any, is_some, ◌∷◌}
use backend_task_management.Common.Errors.{ok, prisma_error}
use backend_task_management.Common.Errors.AppException
use backend_task_management.Common.SoftDelete.{find_first, scoped}
use backend_task_management.Automation.World.{call, lift, pure, ◌>>=◌, ◌>>◌}
use backend_task_management.Accounts.Admins.{
  CreateAdmin, AdminView, create, insert_admin, new_admin, admin_view, find_by_user_id, first_admin,
  of_user,
}
use backend_task_management.Accounts.Admins.Laws.{create-has_live, IsRefused, IsProfile, has_live}
use backend_task_management.Accounts.Users.Store.{row_at}
use backend_task_management.Accounts.Tests.{tools, peopled}

abbrev profile : CreateAdmin
profile = record {
  user_id = "u1";
  first_name = "Ann";
  last_name = "Lee";
  phone = none;
  address = none;
}

abbrev made : AdminView
made = admin_view peopled.users (new_admin "a9" profile)

creates : (create tools profile peopled).0 ≡ ok made
unfolding create insert_admin new_admin admin_view find_by_user_id first_admin find_first scoped
    call lift pure ◌>>=◌ ◌>>◌
creates = refl

create-has_live_example :
    (has_live "u1" peopled.admins ≡ true
      → IsRefused tools profile (AppException.conflict "Admin profile already exists") peopled)
    × (has_live "u1" peopled.admins ≡ false
        → is_some (row_at "u1" peopled.users) ≡ false
        → IsRefused tools profile
            (prisma_error "P2025" "No record was found for a connection")
            peopled)
    × (has_live "u1" peopled.admins ≡ false
        → is_some (row_at "u1" peopled.users) ≡ true
        → any (of_user "u1") peopled.admins ≡ true
        → IsRefused tools profile (prisma_error "P2002" "Unique constraint failed") peopled)
    × (is_some (row_at "u1" peopled.users) ≡ true
        → any (of_user "u1") peopled.admins ≡ false
        → (v : AdminView) × ((create tools profile peopled).0 ≡ ok v)
          × ((create tools profile peopled).1.admins ≡ v.admin ∷ peopled.admins)
          × IsProfile profile v.admin)
create-has_live_example = create-has_live tools profile peopled refl refl

-- The user has a row and no profile.
no_profile :
    (is_some (row_at "u1" peopled.users) ≡ true)
    × (any (of_user "u1") peopled.admins ≡ false)
    × (has_live "u1" peopled.admins ≡ false)
no_profile = (refl, refl, refl)
