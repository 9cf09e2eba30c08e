-- ===== src/Cases/CloudPorts/Stored.antt =====
-- The case store in Firestore against that of the local profile.
use human_review_console.Prelude.{
  String, false, ◌&&◌, ◌≡◌, refl, ap, some, List, [], ◌∷◌, ◌==◌, eq_iff, arith, Bool-cases, inl,
  inr, if◌then◌else◌,
}
use human_review_console.Errors.{ok}
use human_review_console.Stores.Firestore.{Client, IsCollection}
use human_review_console.Cases.Models.{Case}
use human_review_console.Cases.LocalPorts as LocalPorts
use human_review_console.Cases.LocalPorts.{is_case}
use human_review_console.Cases.CloudPorts.{put, get}

-- What a lookup finds after a case is put in the local store.
get_case_after :
    (tenant case_id : String) (c : Case) (cases : List Case)
    → LocalPorts.get_case tenant case_id (LocalPorts.put_case c cases)
      ≡ (if is_case c tenant case_id then some c else LocalPorts.get_case tenant case_id cases)
unfolding LocalPorts.get_case LocalPorts.put_case
get_case_after tenant case_id c [] = refl
get_case_after tenant case_id c (d ∷ rest) = elim (Bool-cases (is_case d c.tenant c.case_id)) [
  | inl own ↦ rw own (elim (Bool-cases (is_case c tenant case_id)) [
    | inl found ↦ rw found refl
    | inr missed ↦
        let apart : is_case d tenant case_id ≡ false = ground (
          arith,
          eq_iff d.tenant c.tenant,
          eq_iff d.case_id c.case_id,
          eq_iff c.tenant tenant,
          eq_iff c.case_id case_id,
        ) in
        rw (missed, apart) refl
  ])
  | inr other ↦ rw other (elim (Bool-cases (is_case d tenant case_id)) [
    | inl found ↦
        let apart : is_case c tenant case_id ≡ false =
          ground (arith, eq_iff c.tenant tenant, eq_iff c.case_id case_id) in
        rw (found, apart) refl
    | inr missed ↦ rw missed (get_case_after tenant case_id c rest)
  ])
]

module _ {Data : Type 0} (to_jsonable : Case → Data) (hydrate : Data → Case)
    (client : Client Data) where
  -- The two stores answer every lookup alike.
  abbrev pub Agree : client.Database → List Case → Type 0
  Agree db cases =
      (tenant case_id : String)
      → get to_jsonable hydrate client tenant case_id db ≡ LocalPorts.get_case tenant case_id cases

  pub empty-Agree : IsCollection client → Agree client.empty []
  unfolding get LocalPorts.get_case
  empty-Agree laws tenant case_id = rw (laws.document-empty tenant case_id) refl

  -- If decoding undoes encoding and the client does what Firestore documents, a Firestore store and
  -- a local store that answer every lookup alike still do after the same case is put in both.
  pub put-Agree :
      (c : Case) (db written : client.Database) (cases : List Case)
      → IsCollection client
      → ((d : Case) → hydrate (to_jsonable d) ≡ d)
      → Agree db cases
      → put to_jsonable hydrate client c db ≡ ok written
      → Agree written (LocalPorts.put_case c cases)
  unfolding put get
  put-Agree c db written cases laws back agree h tenant case_id =
      rw (laws.document-set c.tenant c.case_id (to_jsonable c) db written tenant case_id h) (
        rw (get_case_after tenant case_id c cases)
          (elim (Bool-cases (c.tenant == tenant && c.case_id == case_id)) [
            | inl own ↦ rw own (ap some (back c))
            | inr other ↦ rw other (agree tenant case_id)
          ]))
