-- ===== src/Domain/InvoiceStatus.antt =====
-- backend/crates/domain/src/invoice_status.rs
use essentials_merchant.Base.{
  ℕ, ◌<◌, String, str_eq, str_eq-true, ◌≡◌, refl, inl, inr, ◌⊎◌, Bool, true, false, Option, none,
  some, arith, if◌then◌else◌,
}

pub data InvoiceStatus : Type 0 where
  draft sent overdue paid cancelled : InvoiceStatus

unfoldable pub as_str : InvoiceStatus → String
as_str draft = "draft"
as_str sent = "sent"
as_str overdue = "overdue"
as_str paid = "paid"
as_str cancelled = "cancelled"

unfoldable pub parse : String → Option InvoiceStatus
parse s =
    if str_eq s "draft"
    then some draft
    else if str_eq s "sent"
    then some sent
    else if str_eq s "overdue"
    then some overdue
    else if str_eq s "paid"
    then some paid
    else if str_eq s "cancelled"
    then some cancelled
    else none

unfoldable pub is_editable : InvoiceStatus → Bool
is_editable draft = true
is_editable _ = false

unfoldable pub can_transition_to : InvoiceStatus → InvoiceStatus → Bool
can_transition_to draft sent = true
can_transition_to draft cancelled = true
can_transition_to sent paid = true
can_transition_to sent overdue = true
can_transition_to sent cancelled = true
can_transition_to overdue paid = true
can_transition_to overdue cancelled = true
can_transition_to _ _ = false

parse-as_str : (s : InvoiceStatus) → parse (as_str s) ≡ some s
unfolding parse as_str
parse-as_str draft = refl
parse-as_str sent = refl
parse-as_str overdue = refl
parse-as_str paid = refl
parse-as_str cancelled = refl

as_str-parse : (s : String) (st : InvoiceStatus) → parse s ≡ some st → s ≡ as_str st
unfolding parse as_str
as_str-parse s draft e = str_eq-true s "draft" (ground arith)
as_str-parse s sent e = str_eq-true s "sent" (ground arith)
as_str-parse s overdue e = str_eq-true s "overdue" (ground arith)
as_str-parse s paid e = str_eq-true s "paid" (ground arith)
as_str-parse s cancelled e = str_eq-true s "cancelled" (ground arith)

-- The text of a status reads back as that status, and no other text does.
pub parse-eq-some :
    (s : String) (st : InvoiceStatus)
    → (parse (as_str st) ≡ some st) × (parse s ≡ some st → s ≡ as_str st)
parse-eq-some s st = (parse-as_str st, as_str-parse s st)

-- How far an invoice has come.
abbrev pub stage : InvoiceStatus → ℕ
stage draft = 0
stage sent = 1
stage overdue = 2
stage paid = 3
stage cancelled = 3

-- A chain of permitted transitions.
pub data Leads : InvoiceStatus → InvoiceStatus → Type 0 where
  here : {s : InvoiceStatus} → Leads s s
  next : {s t u : InvoiceStatus} → can_transition_to s t ≡ true → Leads t u → Leads s u

transition_advances : (s t : InvoiceStatus) → can_transition_to s t ≡ true → stage s < stage t
unfolding can_transition_to
transition_advances s t h = ground arith

Leads-advances : {s t : InvoiceStatus} → Leads s t → (s ≡ t) ⊎ (stage s < stage t)
Leads-advances here = inl refl
Leads-advances (next {s = s} {t = t} {u = u} step rest) = elim (Leads-advances rest) [
  | inl same ↦ inr (ground (arith, same, transition_advances s t step))
  | inr more ↦ inr (omega (arith, more, transition_advances s t step))
]

-- An invoice that has left a state never comes back to it: a chain of permitted transitions that
-- begins with a step does not return.
pub transitions_acyclic : (s t : InvoiceStatus) → can_transition_to s t ≡ true → ¬ Leads t s
transitions_acyclic s t step back = elim (Leads-advances back) [
  | inl same ↦ absurd (ground (arith, same, transition_advances s t step))
  | inr more ↦ absurd (omega (arith, more, transition_advances s t step))
]
