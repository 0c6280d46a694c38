-- ===== src/Cli/Client/Accounts.antt =====
-- cli/controller_client.py: registration and login.
use redcloud_files.Base.{String, Option, none, some, if◌then◌else◌, ◌==◌}
use redcloud_files.Protocol.Json.{Json, str, look_up}
use redcloud_files.Http.{json, text, Response}
use redcloud_files.Cli.Client.{
  Outcome, returned, raised, Raised, not_caught, Tried, RetryConfig, request_with_retry,
  format_error, shown, Client,
}

-- What a command prints; an exception's own text is left out.
pub data Printed : Type 0 where
  registration_successful : (user_id : String) → Printed
  login_successful : Printed
  registration_failed : (error : String) → Printed
  login_failed : (error : String) → Printed
  connection_error : Raised → Printed
  unexpected_error : Printed

unfoldable pub raised_message : Raised → Printed
raised_message not_caught = unexpected_error
raised_message e = connection_error e

-- `data[key]`, which raises on a missing key and on a body that is no object. A key that is no text
-- is taken for a missing one; Python takes it as it is.
unfoldable pub field_of : String → Response → Option Json
field_of key response = elim response.body [ json fields ↦ look_up key fields | text t ↦ none ]

module _ {S : Type 0} (str_json : Json → String) where
  unfoldable pub save_registration : Option Json → Option Json → Client S → Printed × Client S
  save_registration (some (str key)) (some user_id) c =
      (registration_successful (shown str_json user_id), record c { api_key = some key })
  save_registration _ _ c = (unexpected_error, c)

  unfoldable pub registration_reply : Option String → Tried S → Printed × Client S
  registration_reply old t = elim t.result [
    | returned response ↦
        let saved =
          save_registration (field_of "api_key" response) (field_of "user_id" response)
            (record { api_key = old; state = t.state }) in
        if response.status_code == 201 then saved else (
          registration_failed (format_error str_json response),
          record { api_key = old; state = t.state },
        )
    | raised e ↦ (raised_message e, record { api_key = old; state = t.state })
  ]

  -- `send` is `POST /auth/register` with the username and the password
  unfoldable pub register : RetryConfig → (S → Outcome × S) → Client S → Printed × Client S
  register config send c = registration_reply c.api_key (request_with_retry config send c.state)

  unfoldable pub save_login : Option Json → Client S → Printed × Client S
  save_login (some (str key)) c = (login_successful, record c { api_key = some key })
  save_login _ c = (unexpected_error, c)

  unfoldable pub login_reply : Option String → Tried S → Printed × Client S
  login_reply old t = elim t.result [
    | returned response ↦
        let saved =
          save_login (field_of "api_key" response) (record { api_key = old; state = t.state }) in
        if response.status_code == 200 then saved else (
          login_failed (format_error str_json response),
          record { api_key = old; state = t.state },
        )
    | raised e ↦ (raised_message e, record { api_key = old; state = t.state })
  ]

  -- `send` is `POST /auth/login` with the username and the password
  unfoldable pub login : RetryConfig → (S → Outcome × S) → Client S → Printed × Client S
  login config send c = login_reply c.api_key (request_with_retry config send c.state)
