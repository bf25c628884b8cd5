-- ===== src/Http/Filter.antt =====
-- libs/common/src/global-exception.filter.ts and response-transform.interceptor.ts, and the answer to
-- a request that they make from what its controller returns or throws.
use Prim.Native.String
use realtime_ops_platform.Prelude.{
  ℕ, String, List, [], ◌∷◌, map, Bool, true, false, ◌&&◌, Option, none, some, str_eq, if◌then◌else◌,
}
use realtime_ops_platform.Core.Value.{Value, Fields, end, field, obj, get}
use realtime_ops_platform.Runtime.Monad.{Env, M, pure, ◌>>=◌, now}

-- An entry of a list of messages: a text, or a ValidationError with the values of its `constraints`.
pub data Entry : Type 0 where
  text : String → Entry
  validation : Option (List String) → Entry

-- `message` of the response of an HttpException
pub data Message : Type 0 where
  absent : Message
  single : String → Message
  many : List Entry → Message

-- `getResponse()`: a text, or an object with `message` and `error`
pub data ErrorPayload : Type 0 where
  plain : String → ErrorPayload
  details : Message → Option String → ErrorPayload

-- An exception as the filter sees it: an HttpException with its status and its response, or not one.
pub data Thrown : Type 0 where
  http : ℕ → ErrorPayload → Thrown
  other : Thrown

-- `xs.join(separator)`
abbrev pub join : String → List String → String
join separator [] = ""
join separator (x ∷ []) = x
join separator (x ∷ y ∷ xs) = String.◌++◌ x (String.◌++◌ separator (join separator (y ∷ xs)))

abbrev pub entry_text : Entry → String
entry_text (text s) = s
entry_text (validation none) = ""
entry_text (validation (some constraints)) = join ", " constraints

-- `.filter(Boolean)` on texts
abbrev pub without_empty : List String → List String
without_empty [] = []
without_empty (s ∷ rest) = let kept = without_empty rest in if str_eq s "" then kept else s ∷ kept

-- `payload.error ?? 'Request failed'`
abbrev error_or_default : Option String → String
error_or_default none = "Request failed"
error_or_default (some error) = error

unfoldable pub normalize_message : ErrorPayload → String
normalize_message (plain s) = s
normalize_message (details (many entries) error) =
    join "; " (without_empty (map entry_text entries))
normalize_message (details (single s) error) = s
normalize_message (details absent error) = error_or_default error

-- the `error` of the body
pub record ErrorBody : Type 0 where
  pub code : ℕ
  pub message : String
  pub path : String
  pub timestamp : ℕ

-- The status of the answer and its body, whose `success` is false for `failure` and true for the rest.
-- The status of a success is the framework's.
pub data Reply (A : Type 0) : Type 0 where
  success : A → Reply A
  failure : ℕ → ErrorBody → Reply A

-- GlobalExceptionFilter.catch
unfoldable pub catch_exception : {A : Type 0} → Env → String → Thrown → M (Reply A)
unfolding normalize_message
catch_exception env url (http status payload) = do
  timestamp ← now env
  pure (
      failure status (record {
        code = status;
        message = normalize_message payload;
        path = url;
        timestamp = timestamp;
      }))
catch_exception env url other = do
  timestamp ← now env
  pure (
      failure 500 (record {
        code = 500;
        message = "Unexpected server error";
        path = url;
        timestamp = timestamp;
      }))

-- `key in data`
abbrev has : String → Fields → Bool
has key end = false
has key (field k v rest) = let later = has key rest in if str_eq k key then true else later

-- the body of a success: `data`, and `meta` where it has one
pub data Body : Type 0 where
  data_only : Value → Body
  with_meta : Value → Value → Body

-- ResponseTransformInterceptor.intercept, on what the controller returned. An array has no own key
-- `items`, and the values that are no objects are passed on.
unfoldable pub intercept : Value → Body
intercept (obj fields) =
    if has "items" fields && has "meta" fields
    then with_meta (get "items" fields) (get "meta" fields)
    else data_only (obj fields)
intercept value = data_only value
