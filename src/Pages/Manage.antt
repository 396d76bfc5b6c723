-- ===== src/Pages/Manage.antt =====
-- The place's own page, frontend/src/pages/PlaceDetailPage.tsx: which branch it shows, and its bill form.
-- The form keeps the values that it was mounted with: `useForm` reads its default values once, and the
-- page gives the form no key, so it stays mounted as long as it is shown.
pub mod Table
use energlens.Common.{
  ◌≡◌, refl, Bool, true, false, not, ◌||◌, Option, none, some, List, [], ◌∷◌, Text, is_some,
  if◌then◌else◌, arith,
}
use energlens.Api.{Bill, Place}
use energlens.Client.{Thrown}
use energlens.Errors.{describe_error, ErrorKind, not_found}
use energlens.Forms.{FormValues, BillInput, to_input}
use energlens.Forms.Initial.{default_values}
use energlens.Queries.{Granularity, month}

-- A query as a page reads it.
pub record QueryState (A : Type 0) : Type 0 where
  pub data' : Option A
  pub error : Option Thrown
  pub is_loading : Bool

-- The branch that is shown for the place, and for its bills.
pub data PlaceView : Type 0 where
  loading missing : PlaceView
  failed : Thrown → PlaceView
  shown : Place → PlaceView

abbrev is_not_found : ErrorKind → Bool
is_not_found not_found = true
is_not_found _ = false

unfoldable pub place_view : Bool → QueryState Place → PlaceView
place_view is_offline q = if q.is_loading then loading else elim q.error [
  | some e ↦ if is_not_found (describe_error is_offline e).kind then missing else failed e
  | none ↦ elim q.data' [ none ↦ missing | some p ↦ shown p ]
]

pub data BillsView : Type 0 where
  bills_loading no_bills : BillsView
  bills_failed : Thrown → BillsView
  bills_shown : List Bill → BillsView

unfoldable pub bills_view : QueryState (List Bill) → BillsView
bills_view q = if q.is_loading then bills_loading else elim q.error [
  | some e ↦ bills_failed e
  | none ↦ elim q.data' [ none ↦ no_bills | some bs ↦ listed bs ]
]
  where
    listed : List Bill → BillsView
    listed [] = no_bills
    listed (b ∷ bs) = bills_shown (b ∷ bs)

pub record Manage : Type 0 where
  pub editing_place : Bool
  pub bill_form_open : Bool
  pub editing_bill : Option Bill
  pub granularity : Granularity
  -- the values in the form, while it is mounted
  pub form : Option FormValues

unfoldable pub opened : Manage
opened = record {
  editing_place = false;
  bill_form_open = false;
  editing_bill = none;
  granularity = month;
  form = none;
}

-- The next render: `(billFormOpen || editingBill) && <BillForm … />`.
abbrev pub rendered : Manage → Manage
rendered s = record s {
  form = if s.bill_form_open || is_some s.editing_bill then some (kept s.form) else none;
}
  where
    kept : Option FormValues → FormValues
    kept (some v) = v
    kept none = default_values s.editing_bill

pub data Event : Type 0 where
  -- "Cancel" in the form of the place or its success, and in the form of the bill or its success
  toggles_place closes_place adds closes : Event
  edits : Bill → Event
  types : FormValues → Event
  picks : Granularity → Event

unfoldable pub handle_event : Event → Manage → Manage
handle_event toggles_place s = rendered (record s { editing_place = not s.editing_place })
handle_event closes_place s = rendered (record s { editing_place = false })
handle_event adds s = rendered (record s { bill_form_open = true })
handle_event closes s = rendered (record s { bill_form_open = false; editing_bill = none })
handle_event (edits b) s = rendered (record s { editing_bill = some b; bill_form_open = false })
handle_event (types v) s = rendered (record s { form = typed s.form })
  where
    typed : Option FormValues → Option FormValues
    typed none = none
    typed (some _) = some v
handle_event (picks g) s = rendered (record s { granularity = g })

-- What `onSubmit` sends: a creation, or an update of the bill with an id.
pub data Submission : Type 0 where
  creates : BillInput → Submission
  updates : Text → BillInput → Submission

unfoldable pub submission : Manage → Option Submission
submission s = elim s.form [ none ↦ none | some v ↦ some (send s.editing_bill v) ]
  where
    send : Option Bill → FormValues → Submission
    send none v = creates (to_input none v)
    send (some b) v = updates b.id (to_input (some b) v)

-- The values that a form holds which is open, and else those of the bill.
abbrev pub values_or : Option FormValues → Bill → FormValues
values_or (some v) b = v
values_or none b = default_values (some b)

-- A save after "Edit" on a bill updates that bill. It sends the bill's own values only if no form was
-- open: a form that is open, for another bill or for a new one, keeps the values it holds, and these
-- are what the bill is overwritten with.
pub submission-edits :
    (s : Manage) (b : Bill)
    → submission (handle_event (edits b) s)
      ≡ some (updates b.id (to_input (some b) (values_or s.form b)))
unfolding submission handle_event
submission-edits s b = by_form s.form
  where
    by_form :
        (form : Option FormValues)
        → submission (handle_event (edits b) (record s { form = form }))
          ≡ some (updates b.id (to_input (some b) (values_or form b)))
    by_form none = refl
    by_form (some v) = refl

-- The state after a list of events.
abbrev pub handle_all : List Event → Manage → Manage
handle_all [] s = s
handle_all (e ∷ es) s = handle_all es (handle_event e s)

-- The form is shown exactly while a bill is added or edited.
abbrev pub IsShown : Manage → Type 0
IsShown s = is_some s.form ≡ (s.bill_form_open || is_some s.editing_bill)

handle_event-IsShown : (e : Event) (s : Manage) → IsShown (handle_event e s)
unfolding handle_event
handle_event-IsShown toggles_place s = ground arith
handle_event-IsShown closes_place s = ground arith
handle_event-IsShown adds s = ground arith
handle_event-IsShown closes s = ground arith
handle_event-IsShown (edits b) s = ground arith
handle_event-IsShown (types v) s = ground arith
handle_event-IsShown (picks g) s = ground arith

-- Whatever is clicked and typed after the page is opened, its bill form is shown exactly while a bill is
-- being added or edited.
pub handle_all-IsShown : (es : List Event) (s : Manage) → IsShown s → IsShown (handle_all es s)
handle_all-IsShown [] s h = h
handle_all-IsShown (e ∷ es) s h =
    handle_all-IsShown es (handle_event e s) (handle_event-IsShown e s)
