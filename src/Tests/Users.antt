-- ===== src/Tests/Users.antt =====
-- The theorem on the users in Postgres, at a table with one user.
use goph_keeper.Base.{◌⊎◌, [], ◌∷◌, codes}
use goph_keeper.Models.{User}
use goph_keeper.Repository.Server.{Server}
use goph_keeper.Repository.PostgresUsers.Creation.{Created, Refused, get_by_email-create}
use goph_keeper.Tests.Server.{server, up}

abbrev ann : User
ann = record { id = codes "1"; email = codes "a@b"; password_hash = codes "h"; created_at = 1000 }

abbrev bob : User
bob = record { id = codes "2"; email = codes "b@b"; password_hash = codes "k"; created_at = 2345 }

abbrev with_ann : Server
with_ann = record server { users = ann ∷ [] }

get_by_email-create_example : Created bob with_ann ⊎ Refused bob with_ann
get_by_email-create_example = get_by_email-create bob with_ann up
