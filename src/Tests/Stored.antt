-- ===== src/Tests/Stored.antt =====
-- A dispute, put in Firestore and in the local store.
use human_review_console.Prelude.{String, ◌≡◌, refl, List, []}
use human_review_console.Errors.{ok}
use human_review_console.Cases.Models.{Case}
use human_review_console.Cases.LocalPorts.{put_case}
use human_review_console.Cases.CloudPorts.{put}
use human_review_console.Cases.CloudPorts.Stored.{Agree, empty-Agree, put-Agree}
use human_review_console.Stores.Firestore.{Client}
use human_review_console.Tests.Clocks.{dispute}
use human_review_console.Tests.Firestores.{listed, listed-IsCollection}

abbrev no_query : String → List Case → List Case
no_query source_key cases = []

abbrev client : Client Case
client = listed no_query

abbrev same : Case → Case
same c = c

abbrev written : client.Database
written = elim (put same same client dispute []) [ ok db ↦ db | _ ↦ [] ]

put-returns : put same same client dispute [] ≡ ok written
unfolding put
put-returns = refl

put-Agree_example : Agree same same client written (put_case dispute [])
put-Agree_example =
    put-Agree same same client dispute [] written [] (listed-IsCollection no_query) (λ d. refl)
      (empty-Agree same same client (listed-IsCollection no_query)) put-returns
