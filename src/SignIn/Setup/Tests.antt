-- ===== src/SignIn/Setup/Tests.antt =====
-- The first account of an empty server, and a second request.
use meshive.Prelude.{some, [], string_eq}
use meshive.Http.{Response, ok, error}
use meshive.Models.{User}
use meshive.SignIn.{Server, Settings}
use meshive.SignIn.Tests.{plain, ascii, same, settings, ann, server, at}
use meshive.SignIn.Setup.{InitialAdminCreate, create_initial_admin}

abbrev opened : Settings
opened = record settings { setup_token = some "key" }

abbrev empty : Server
empty = record server { db = record server.db { users = []; sessions = [] } }

abbrev payload : InitialAdminCreate
payload = record { setup_token = "key"; username = "root"; password = "long enough" }

abbrev made : Response User × Server
made = create_initial_admin plain ascii same opened (at 5) "t" payload empty

abbrev account : Response User → User
account (ok u) = u
account (error e) = ann
