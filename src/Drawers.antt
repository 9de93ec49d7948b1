-- ===== src/Drawers.antt =====
-- What the drawers that create and edit a record share (frontend/src/pages/Services/ and
-- frontend/src/features/costing/components/): which record a page edits, and the mutation that a
-- drawer starts.
use bubllio_crm.Prelude.{String, Bool, true, false, Option, none, some}

-- A state of type `T | true | null`: `true` opens the drawer for a new record.
pub data Editor {ℓ} (T : Type ℓ) : Type ℓ where
  closed : Editor T
  adding : Editor T
  editing : T → Editor T

module _ {ℓ} {T : Type ℓ} where
  -- Boolean(editor)
  abbrev pub is_open : Editor T → Bool
  is_open closed = false
  is_open adding = true
  is_open (editing t) = true

  -- editor === true ? undefined : editor, for one that is open
  abbrev pub record_of : Editor T → Option T
  record_of (editing t) = some t
  record_of closed = none
  record_of adding = none

-- update.mutate({ id, body }) or create.mutate(body)
pub data Save {ℓ} (B : Type ℓ) : Type ℓ where
  update : (id : String) → B → Save B
  create : B → Save B

-- record ? update.mutate({ id: record.id, body: form }) : create.mutate(form)
abbrev pub save_as {ℓ κ} : {T : Type ℓ} {B : Type κ} → (T → String) → Option T → B → Save B
save_as id_of none form = create form
save_as id_of (some t) form = update (id_of t) form
