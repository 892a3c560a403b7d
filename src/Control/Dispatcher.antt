-- ===== src/Control/Dispatcher.antt =====
-- `CommandDispatcher` of src/control/command_dispatcher.cpp. A string is a list of bytes. The JSON
-- library is a parameter: `parse`, and `value_cmd` for `msg.value("cmd", "")`, which throws for a
-- message that is no object and for a `cmd` that is no string. Replies stand before they are dumped.
pub mod Laws
use ras_pi_zero_cam.Prelude.{
  ℕ, Bool, true, false, Option, none, some, List, [], ◌∷◌, ◌==◌, ◌&&◌, if◌then◌else◌,
}
use ras_pi_zero_cam.Prelude.Text.{same}

pub data Outcome {ℓ} (A : Type ℓ) : Type ℓ where
  returns : A → Outcome A
  throws : List ℕ → Outcome A

pub data Reply : Type 0 where
  invalid_json : Reply
  missing_cmd : Reply
  unknown_command : List ℕ → Reply
  handler_error : List ℕ → Reply
  replied : List ℕ → Reply

module _ (Json : Type 0) (parse : List ℕ → Outcome Json) (value_cmd : Json → Outcome (List ℕ)) where
  abbrev pub Handler : Type 0
  Handler = Json → Outcome (List ℕ)

  abbrev pub Handlers : Type 0
  Handlers = List (List ℕ × Handler)

  -- `handlers_[cmd] = handler` replaces the handler of a name that is there.
  unfoldable pub register_command : Handlers → List ℕ → Handler → Handlers
  register_command [] cmd handler = (cmd, handler) ∷ []
  register_command ((name, old) ∷ rest) cmd handler =
      let later = register_command rest cmd handler in
      if same name cmd then (name, handler) ∷ rest else (name, old) ∷ later

  unfoldable pub find : Handlers → List ℕ → Option Handler
  find [] cmd = none
  find ((name, handler) ∷ rest) cmd =
      let later = find rest cmd in if same name cmd then some handler else later

  abbrev pub answer : Outcome (List ℕ) → Reply
  answer (returns text) = replied text
  answer (throws what) = handler_error what

  abbrev pub call : Json → List ℕ → Option Handler → Reply
  call msg cmd none = unknown_command cmd
  call msg cmd (some handler) = answer (handler msg)

  abbrev pub look_up : Handlers → Json → List ℕ → Reply
  look_up handlers msg [] = missing_cmd
  look_up handlers msg (c ∷ cs) = call msg (c ∷ cs) (find handlers (c ∷ cs))

  -- `msg.value` stands outside of both `try` blocks.
  abbrev pub named : Handlers → Json → Outcome (List ℕ) → Outcome Reply
  named handlers msg (returns cmd) = returns (look_up handlers msg cmd)
  named handlers msg (throws what) = throws what

  abbrev pub parsed : Handlers → Outcome Json → Outcome Reply
  parsed handlers (throws what) = returns invalid_json
  parsed handlers (returns msg) = named handlers msg (value_cmd msg)

  unfoldable pub dispatch : Handlers → List ℕ → Outcome Reply
  unfolding find
  dispatch handlers raw_json = parsed handlers (parse raw_json)
