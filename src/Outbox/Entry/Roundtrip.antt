-- ===== src/Outbox/Entry/Roundtrip.antt =====
-- The names of the states are read back as the states.
use magiclaw.Common.{ℕ, ◌≡◌, ◌↔◌, refl, ap, ◌∙◌, some, arith, list_eq, nat_eq}
use magiclaw.Common.Text.{Text, text}
use magiclaw.Outbox.Entry.{
  OutboxStatus, pending, sending, sent, retrying, dead_letter, as_str, parse,
}

parse-as_str : (s : OutboxStatus) → parse (as_str s) ≡ some s
unfolding parse as_str
parse-as_str pending = refl
parse-as_str sending = refl
parse-as_str sent = refl
parse-as_str retrying = refl
parse-as_str dead_letter = refl

parse_sound : (t : Text) (s : OutboxStatus) → parse t ≡ some s → t ≡ as_str s
unfolding parse as_str
parse_sound t s h = ground (
  arith,
  (list_eq {A = ℕ}).eq_iff t (text "pending"),
  (list_eq {A = ℕ}).eq_iff t (text "sending"),
  (list_eq {A = ℕ}).eq_iff t (text "sent"),
  (list_eq {A = ℕ}).eq_iff t (text "retrying"),
  (list_eq {A = ℕ}).eq_iff t (text "dead_letter"),
)

-- A text is read as a state exactly when it is the state's name.
pub parse-eq-some_iff : (t : Text) (s : OutboxStatus) → (parse t ≡ some s) ↔ (t ≡ as_str s)
parse-eq-some_iff t s = (parse_sound t s, λ e. ap parse e ∙ parse-as_str s)
