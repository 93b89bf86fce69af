-- ===== src/Template/Value/Call.antt =====
-- `Value::call` of lexer/value.rs, with the global functions of a template. A context
-- is the hash of its variables (rwf/src/view/template/context.rs).
use rwf.Prelude.{Option, none, some, List, [], ◌∷◌, ◌++◌, Bool, true, false, ◌||◌, if◌then◌else◌}
use rwf.Prelude.Int.{ℤ}
use rwf.Prelude.Text.{Text, codes}
use rwf.Prelude.Outcome.{ok, err, panic, ◌>>=◌, Outcome}
use rwf.Template.Value.{
  Value, Entries, integer, float, string, boolean, list, hash, null, interpreter, safe_string, end,
  entry, to_list,
}
use rwf.Template.Token.{Error, Result, unknown_method, runtime}
use rwf.Template.Host.{Host}
use rwf.Template.Value.Methods.{
  named, call_integer, call_float, call_string, call_safe_string, call_list, call_hash,
}
use rwf.Template.Value.Compare.{get}
use rwf.Template.Value.Show.{to_string}

abbrev pub Context : Type 0
Context = Entries

-- `Template::load(path)?.render(context)`, and a template given by its text.
pub record Renderer : Type 0 where
  pub at_path : Text → Context → Result Text
  pub of_source : Text → Context → Result Text

abbrev is_null : Value → Bool
is_null null = true
is_null _ = false

abbrev is_integer : Value → Bool
is_integer (integer i) = true
is_integer _ = false

abbrev is_float : Value → Bool
is_float (float f) = true
is_float _ = false

abbrev text_or_null : Option Text → Value
text_or_null none = null
text_or_null (some t) = string t

abbrev integer_or_null : Option ℤ → Value
integer_or_null none = null
integer_or_null (some i) = integer i

-- `.unwrap()`
abbrev unwrap {ℓ} : {A : Type ℓ} → Outcome Error A → Outcome Error A
unwrap (ok a) = ok a
unwrap (err e) = panic
unwrap panic = panic
unwrap Outcome.out_of_fuel = Outcome.out_of_fuel

abbrev unwrap_option {ℓ} : {A : Type ℓ} → Option A → Outcome Error A
unwrap_option none = panic
unwrap_option (some a) = ok a

module _ (h : Host) where
  open h use {encrypt_number, decrypt_number, csrf_token, head_html, turbo_stream_html}

  encrypt : List Value → Value
  encrypt (integer n ∷ []) = text_or_null (encrypt_number n)
  encrypt _ = null

  decrypt : List Value → Value
  decrypt (string s ∷ []) = integer_or_null (decrypt_number s)
  decrypt _ = null

  default_value : List Value → Value
  default_value (null ∷ d ∷ []) = d
  default_value (v ∷ d ∷ []) = v
  default_value _ = null

  -- `Context::session_id`
  session_text : Option Value → Result Text
  unfolding to_string
  session_text (some v) = ok (to_string h v)
  session_text none = err (runtime (codes "session_id is missing from the context"))

  session_of : Option Value → Result Text
  unfolding session_text get
  session_of (some (hash session)) = session_text (get (codes "session_id") session)
  session_of _ = err (runtime (codes "session is missing from the context"))

  request_of : Option Value → Result Text
  unfolding session_of get
  request_of (some (hash es)) = session_of (get (codes "session") es)
  request_of _ = err (runtime (codes "request is missing from the context"))

  session_id : Context → Result Text
  unfolding request_of get
  session_id context = request_of (get (codes "request") context)

  module _ (render : Renderer) where
    turbo_stream : List Value → Result Value
    turbo_stream (string endpoint ∷ []) = do
      text ←
          unwrap
            (render.of_source turbo_stream_html (entry (codes "endpoint") (string endpoint) end))
      ok (safe_string text)
    turbo_stream _ = err (runtime (codes "rwf_turbo_stream() requires the WebSocket endpoint"))

    render_path : List Value → Context → Result Value
    render_path (string path ∷ []) context = do
      text ← render.at_path path context
      ok (safe_string text)
    render_path _ context = ok null

    csrf : Context → Result Text
    unfolding session_id
    csrf context = do id ← session_id context; unwrap_option (csrf_token id)

    abbrev csrf_input : Text → Text
    csrf_input token =
        codes "<input type=\"hidden\" name=\"rwf_csrf_token\" value=\"" ++ (token ++ codes "\">")

    unfoldable call_interpreter : Text → List Value → Context → Result Value
    unfolding named encrypt decrypt turbo_stream render_path csrf default_value
    call_interpreter m args context =
        if named m (codes "encrypt_number" ∷ [])
        then ok (encrypt args)
        else if named m (codes "decrypt_number" ∷ [])
        then ok (decrypt args)
        else if named m (codes "rwf_head" ∷ [])
        then (do ok (safe_string (← render.of_source head_html context)))
        else if named m (codes "rwf_turbo_stream" ∷ [])
        then turbo_stream args
        else if named m (codes "csrf_token_raw" ∷ [])
        then (do ok (safe_string (← csrf context)))
        else if named m (codes "csrf_token" ∷ [])
        then (do ok (safe_string (csrf_input (← csrf context))))
        else if named m (codes "render" ∷ [])
        then render_path args context
        else if named m (codes "default" ∷ [])
        then ok (default_value args)
        else err (unknown_method m "global")

    -- The methods of one type
    call_on : Value → Text → List Value → Context → Result Value
    unfolding call_integer call_float call_string call_safe_string call_list call_hash
        call_interpreter to_list
    call_on (integer i) m args context = call_integer h i m args
    call_on (float f) m args context = call_float h f m
    call_on (string s) m args context = call_string h s m args
    call_on (safe_string s) m args context = call_safe_string h s m
    call_on (list vs) m args context = call_list h (to_list vs) m args
    call_on (hash es) m args context = call_hash h es m
    call_on interpreter m args context = call_interpreter m args context
    call_on (boolean b) m args context = err (unknown_method m "boolean")
    call_on null m args context = err (unknown_method m "null")

    unfoldable pub call : Value → Text → List Value → Context → Result Value
    unfolding named call_on
    call v m args context =
        if named m (codes "nil" ∷ codes "null" ∷ codes "blank" ∷ [])
        then ok (boolean (is_null v))
        else if named m (codes "integer" ∷ [])
        then ok (boolean (is_integer v))
        else if named m (codes "float" ∷ [])
        then ok (boolean (is_float v))
        else if named m (codes "numeric" ∷ [])
        then ok (boolean (is_integer v || is_float v))
        else call_on v m args context
