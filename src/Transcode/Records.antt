-- ===== src/Transcode/Records.antt =====
-- The records of running and failed transcodes as texts: `_serialize`, `_deserialize`,
-- `_serialize_failures` and `_deserialize_failures` of packages/media/pornarr_media/sessions.py.
pub mod Trips
use pornarr.Common.{
  ℕ, Bool, true, false, not, Option, none, some, List, [], ◌∷◌, ◌≡◌, String, str_eq, map, ltb,
  if◌then◌else◌,
}
use pornarr.Common.Int.{ℤ, pos, negsuc}
use pornarr.Transcode.{TranscodeSession}

pub record TranscodeFailure : Type 0 where
  pub session_id : ℕ
  pub user_id : ℕ
  pub media_id : ℕ
  pub mode : String
  pub exit_code : ℤ
  pub created_at : ℕ

-- What `json` makes of a text, as deep as the records go: `compound` is any value that is none of
-- the others.
pub data Scalar : Type 0 where
  null compound : Scalar
  boolean : Bool → Scalar
  integer : ℤ → Scalar
  text : String → Scalar

abbrev pub Object : Type 0
Object = List (String × Scalar)

pub data Item : Type 0 where
  object : Object → Item
  no_object : Item

pub data Document : Type 0 where
  single : Item → Document
  listed : List Item → Document

-- `json`, and the texts of UUIDs and of instants: what is written is read back.
pub record Codec : Type 1 where
  pub Text : Type 0
  pub dumps : Document → Text
  pub loads : Text → Option Document
  pub loads-dumps : (d : Document) → loads (dumps d) ≡ some d
  pub uuid_text : ℕ → String
  pub uuid : String → Option ℕ
  pub uuid-uuid_text : (n : ℕ) → uuid (uuid_text n) ≡ some n
  pub iso_text : ℕ → String
  pub from_iso : String → Option ℕ
  pub from_iso-iso_text : (n : ℕ) → from_iso (iso_text n) ≡ some n

-- A value is read, or the reader answers `None`, or it raises an `AttributeError`, which it does not
-- catch.
pub data Reading (A : Type 0) : Type 0 where
  reads : A → Reading A
  refused crashed : Reading A

infixl 5 ◌>>=◌
abbrev pub ◌>>=◌ : {A B : Type 0} → Reading A → (A → Reading B) → Reading B
reads a >>= f = f a
refused >>= f = refused
crashed >>= f = crashed

-- `data[name]`, where a missing key raises `KeyError`, and `data.get(name)`
abbrev pub field : String → Object → Option Scalar
field name [] = none
field name ((key, value) ∷ rest) =
    let found = field name rest in if str_eq key name then some value else found

abbrev required : Option Scalar → Reading Scalar
required none = refused
required (some v) = reads v

-- `isinstance(value, str)`
abbrev as_text : Scalar → Reading String
as_text (text t) = reads t
as_text _ = refused

-- `isinstance(value, bool)`, with the default of `data.get`
abbrev as_flag : Option Scalar → Reading Bool
as_flag none = reads false
as_flag (some (boolean b)) = reads b
as_flag (some _) = refused

-- `isinstance(value, int)`: a `bool` is an `int`.
abbrev as_integer : Scalar → Reading ℤ
as_integer (integer n) = reads n
as_integer (boolean true) = reads (pos 1)
as_integer (boolean false) = reads (pos 0)
as_integer _ = refused

-- `process_id <= 0` is refused.
abbrev as_process : ℤ → Reading ℕ
as_process (pos n) = if ltb 0 n then reads n else refused
as_process (negsuc n) = refused

abbrev or_refused : {A : Type 0} → Option A → Reading A
or_refused none = refused
or_refused (some a) = reads a

-- A label that is no text, which no writer leaves, is taken for none.
abbrev pub label_of : Option Scalar → Option String
label_of (some (text t)) = some t
label_of _ = none

module _ (c : Codec) where
  open c use {Text, dumps, loads, uuid_text, uuid, iso_text, from_iso}

  -- `UUID(value)`: of a value that is neither a text nor `None` it asks for `value.replace`.
  abbrev as_uuid : Scalar → Reading ℕ
  as_uuid (text t) = or_refused (uuid t)
  as_uuid null = refused
  as_uuid _ = crashed

  -- `datetime.fromisoformat(value)`
  abbrev as_instant : Scalar → Reading ℕ
  as_instant (text t) = or_refused (from_iso t)
  as_instant _ = refused

  abbrev pub optional_text : Option String → Scalar
  optional_text none = null
  optional_text (some t) = text t

  -- `_serialize`
  abbrev pub session_object : TranscodeSession → Object
  session_object s =
      ("id", text (uuid_text s.id))
      ∷ ("user_id", text (uuid_text s.user_id))
      ∷ ("media_id", text (uuid_text s.media_id))
      ∷ ("mode", text s.mode)
      ∷ ("hardware", boolean s.hardware)
      ∷ ("process_id", integer (pos s.process_id))
      ∷ ("created_at", text (iso_text s.created_at))
      ∷ ("device_label", optional_text s.device_label)
      ∷ []

  unfoldable pub serialize : TranscodeSession → Text
  serialize s = dumps (single (object (session_object s)))

  -- The body of the `try` of `_deserialize`.
  unfoldable pub read_session : Object → Reading TranscodeSession
  read_session data_object = do
    mode_value ← required (field "mode" data_object)
    process_value ← required (field "process_id" data_object)
    mode ← as_text mode_value
    hardware ← as_flag (field "hardware" data_object)
    process_number ← as_integer process_value
    process_id ← as_process process_number
    id_value ← required (field "id" data_object)
    id ← as_uuid id_value
    user_value ← required (field "user_id" data_object)
    user_id ← as_uuid user_value
    media_value ← required (field "media_id" data_object)
    media_id ← as_uuid media_value
    created_value ← required (field "created_at" data_object)
    created_at ← as_instant created_value
    reads (record {
      id = id;
      user_id = user_id;
      media_id = media_id;
      mode = mode;
      hardware = hardware;
      process_id = process_id;
      created_at = created_at;
      device_label = label_of (field "device_label" data_object);
    })

  abbrev read_document : Option Document → Reading TranscodeSession
  read_document (some (single (object o))) = read_session o
  read_document _ = refused

  -- `_deserialize`
  unfoldable pub deserialize : Option Text → Reading TranscodeSession
  deserialize none = refused
  deserialize (some stored) = read_document (loads stored)

  -- `_serialize_failures`
  abbrev pub failure_object : TranscodeFailure → Object
  failure_object f =
      ("session_id", text (uuid_text f.session_id))
      ∷ ("user_id", text (uuid_text f.user_id))
      ∷ ("media_id", text (uuid_text f.media_id))
      ∷ ("mode", text f.mode)
      ∷ ("exit_code", integer f.exit_code)
      ∷ ("created_at", text (iso_text f.created_at))
      ∷ []

  unfoldable pub serialize_failures : List TranscodeFailure → Text
  serialize_failures failures = dumps (listed (map (λ f. object (failure_object f)) failures))

  unfoldable pub read_failure : Object → Reading TranscodeFailure
  read_failure item = do
    mode_value ← required (field "mode" item)
    exit_value ← required (field "exit_code" item)
    mode ← as_text mode_value
    exit_code ← as_integer exit_value
    session_value ← required (field "session_id" item)
    session_id ← as_uuid session_value
    user_value ← required (field "user_id" item)
    user_id ← as_uuid user_value
    media_value ← required (field "media_id" item)
    media_id ← as_uuid media_value
    created_value ← required (field "created_at" item)
    created_at ← as_instant created_value
    reads (record {
      session_id = session_id;
      user_id = user_id;
      media_id = media_id;
      mode = mode;
      exit_code = exit_code;
      created_at = created_at;
    })

  abbrev read_item : Item → Reading TranscodeFailure
  read_item (object o) = read_failure o
  read_item no_object = refused

  -- An item that is refused is passed over.
  abbrev pub with_item :
      Reading TranscodeFailure → Reading (List TranscodeFailure) → Reading (List TranscodeFailure)
  with_item (reads f) rest = rest >>= λ fs. reads (f ∷ fs)
  with_item refused rest = rest
  with_item crashed rest = crashed

  abbrev pub read_items : List Item → Reading (List TranscodeFailure)
  read_items [] = reads []
  read_items (i ∷ is) = with_item (read_item i) (read_items is)

  abbrev read_failures : Option Document → Reading (List TranscodeFailure)
  read_failures (some (listed items)) = read_items items
  read_failures _ = reads []

  -- `_deserialize_failures`
  unfoldable pub deserialize_failures : Option Text → Reading (List TranscodeFailure)
  deserialize_failures none = reads []
  deserialize_failures (some stored) = read_failures (loads stored)
