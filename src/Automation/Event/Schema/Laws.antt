-- ===== src/Automation/Event/Schema/Laws.antt =====
-- What an accepted payload looked like, and what is left of its metadata.
use backend_task_management.Base.{
  String, ◌≡◌, refl, subst, Bool, true, Option, none, some, arith, includes,
}
use backend_task_management.Js.Value.{
  Numbers, Value, undefined, null, function, bool, num, str, arr, obj, Fields, end, field,
}
use backend_task_management.Js.Text.{split_dot}
use backend_task_management.Js.Value.Access.{own, property}
use backend_task_management.Automation.Constants.{service_names}
use backend_task_management.Automation.Event.{Event, metadata_of}
use backend_task_management.Automation.Conditions.{get_by_path}
use backend_task_management.Automation.Event.Schema.{
  text_key, value_key, ◌>>=◌, required_text, any_text, event_types, parse_rest, parse_fields,
  parse_event, parse_metadata, parse_user,
}

bind_some :
    {A B : Type 0} (m : Option A) (f : A → Option B) {b : B}
    → (m >>= f) ≡ some b
    → (a : A) × (m ≡ some a) × (f a ≡ some b)
bind_some none f h = cc
bind_some (some a) f h = (a, refl, h)

required_some :
    {N : Type 0} (test : String → Bool) (v : Option (Value N)) (s : String)
    → required_text test v ≡ some s
    → (v ≡ some (str s)) × (test s ≡ true)
required_some test v s h = ground arith

-- What holds of a result, if there is one.
abbrev Every : {A : Type 0} → (A → Type 0) → Option A → Type 0
Every P none = Unit
Every P (some a) = P a

record Holds {A : Type 0} (P : A → Type 0) (o : Option A) : Type 0 where
  every : Every P o

bind-Holds :
    {A B : Type 0} (P : B → Type 0) (m : Option A) (f : A → Option B)
    → ((a : A) → m ≡ some a → Holds P (f a))
    → Holds P (m >>= f)
bind-Holds P none f h = record { every = tt }
bind-Holds P (some a) f h = h a refl

some-Holds : {A : Type 0} (P : A → Type 0) (a : A) → P a → Holds P (some a)
some-Holds P a h = record { every = h }

holds_at : {A : Type 0} {P : A → Type 0} (o : Option A) {a : A} → Holds P o → o ≡ some a → P a
holds_at {P = P} o h e = (subst (λ x. Holds P x) e h).every

module _ {N : Type 0} (is_email : String → Bool) where
  -- The three keys that the job log is kept by.
  abbrev HasIds : String → String → String → Event N → Type 0
  HasIds event_id event_type service_name e =
      (e.event_id ≡ event_id) × (e.event_type ≡ event_type) × (e.service_name ≡ service_name)

  rest_ids :
      (fs : Fields N) (event_id event_type service_name : String)
      → Holds
          (HasIds event_id event_type service_name)
          (parse_rest is_email fs event_id event_type service_name)
  unfolding parse_rest
  rest_ids fs event_id event_type service_name = search (bind-Holds, some-Holds) depth 40

  -- An accepted payload is an object whose id, type and service are the event's, and the last two
  -- are members of their enumerations.
  pub parse_event_raw :
      (payload : Value N) (e : Event N)
      → parse_event is_email payload ≡ some e
      → (fs : Fields N) × (payload ≡ obj fs)
        × (own "eventId" fs ≡ some (str e.event_id))
        × (own "eventType" fs ≡ some (str e.event_type))
        × (own "serviceName" fs ≡ some (str e.service_name))
        × (includes event_types e.event_type ≡ true)
        × (includes service_names e.service_name ≡ true)
  unfolding parse_event parse_fields
  parse_event_raw (obj fs) e h =
      let (event_id, h1, r1) = bind_some (required_text any_text (own "eventId" fs)) _ h in
      let (event_type, h2, r2) =
        bind_some (required_text (includes event_types) (own "eventType" fs)) _ r1 in
      let (service_name, h3, r3) =
        bind_some (required_text (includes service_names) (own "serviceName" fs)) _ r2 in
      let (i, t, s) = holds_at _ (rest_ids fs event_id event_type service_name) r3 in
      let (o1, _) = required_some any_text (own "eventId" fs) event_id h1 in
      let (o2, m2) = required_some (includes event_types) (own "eventType" fs) event_type h2 in
      let (o3, m3) =
        required_some (includes service_names) (own "serviceName" fs) service_name h3 in
      (fs, refl, rw i o1, rw t o2, rw s o3, rw t m2, rw s m3)
  parse_event_raw undefined e h = cc
  parse_event_raw null e h = cc
  parse_event_raw function e h = cc
  parse_event_raw (bool b) e h = cc
  parse_event_raw (num n) e h = cc
  parse_event_raw (str s) e h = cc
  parse_event_raw (arr xs) e h = cc

module _ (js : Numbers) where
  abbrev NoId : Option (Value js.Num) → Type 0
  NoId none = Unit
  NoId (some u) = property js "id" u ≡ none

  user_fields :
      (user_id role : String) (email name : Option String)
      → NoId (
          some (
            obj (
              field "userId"
                (str user_id)
                (text_key "email" email (field "role" (str role) (text_key "name" name end))))))
  unfolding property
  user_fields user_id role none none = refl
  user_fields user_id role none (some _) = refl
  user_fields user_id role (some _) none = refl
  user_fields user_id role (some _) (some _) = refl

  user-NoId : (v : Option (Value js.Num)) → Holds NoId (parse_user v)
  unfolding parse_user
  user-NoId none = some-Holds NoId none tt
  user-NoId (some undefined) = some-Holds NoId none tt
  user-NoId (some (obj fs)) = search (bind-Holds, some-Holds, user_fields) depth 12
  user-NoId (some null) = record { every = tt }
  user-NoId (some function) = record { every = tt }
  user-NoId (some (bool b)) = record { every = tt }
  user-NoId (some (num n)) = record { every = tt }
  user-NoId (some (str s)) = record { every = tt }
  user-NoId (some (arr xs)) = record { every = tt }

  record NoUserId (o : Option (Value js.Num)) : Type 0 where
    at : get_by_path js (elim o [ none ↦ undefined | some v ↦ v ]) "user.id" ≡ undefined

  metadata_fields :
      (user payload : Option (Value js.Num))
      → NoId user
      → NoUserId (some (obj (value_key "user" user (value_key "payload" payload end))))
  unfolding get_by_path property split_dot
  metadata_fields none none h = record { at = refl }
  metadata_fields none (some p) h = record { at = refl }
  metadata_fields (some u) payload h = record { at = rw h refl }

  parsed_user :
      (v : Option (Value js.Num)) (user : Option (Value js.Num))
      → parse_user v ≡ some user
      → NoId user
  parsed_user v user e = holds_at _ (user-NoId v) e

  no_metadata : NoUserId none
  unfolding get_by_path property split_dot
  no_metadata = record { at = refl }

  metadata_no_id : (v : Option (Value js.Num)) → Holds NoUserId (parse_metadata v)
  unfolding parse_metadata
  metadata_no_id none = some-Holds NoUserId none no_metadata
  metadata_no_id (some undefined) = some-Holds NoUserId none no_metadata
  metadata_no_id (some (obj fs)) =
      search (bind-Holds, some-Holds, metadata_fields, parsed_user) depth 12
  metadata_no_id (some null) = record { every = tt }
  metadata_no_id (some function) = record { every = tt }
  metadata_no_id (some (bool b)) = record { every = tt }
  metadata_no_id (some (num n)) = record { every = tt }
  metadata_no_id (some (str s)) = record { every = tt }
  metadata_no_id (some (arr xs)) = record { every = tt }

  parsed_metadata :
      (v : Option (Value js.Num)) (metadata : Option (Value js.Num))
      → parse_metadata v ≡ some metadata
      → NoUserId metadata
  parsed_metadata v metadata e = holds_at _ (metadata_no_id v) e

  rest_no_id :
      (is_email : String → Bool) (fs : Fields js.Num) (event_id event_type service_name : String)
      → Holds (λ e. NoUserId e.metadata) (parse_rest is_email fs event_id event_type service_name)
  unfolding parse_rest
  rest_no_id is_email fs event_id event_type service_name =
      search (bind-Holds, some-Holds, parsed_metadata) depth 40

  fields_no_id :
      (is_email : String → Bool) (fs : Fields js.Num)
      → Holds (λ e. NoUserId e.metadata) (parse_fields is_email fs)
  unfolding parse_fields
  fields_no_id is_email fs = search (bind-Holds, rest_no_id) depth 12

  -- No accepted payload has a value at the metadata path `user.id`.
  pub parse_event-user_id :
      (is_email : String → Bool) (payload : Value js.Num) (e : Event js.Num)
      → parse_event is_email payload ≡ some e
      → get_by_path js (metadata_of e) "user.id" ≡ undefined
  unfolding parse_event
  parse_event-user_id is_email (obj fs) e h = (holds_at _ (fields_no_id is_email fs) h).at
  parse_event-user_id is_email undefined e h = cc
  parse_event-user_id is_email null e h = cc
  parse_event-user_id is_email function e h = cc
  parse_event-user_id is_email (bool b) e h = cc
  parse_event-user_id is_email (num n) e h = cc
  parse_event-user_id is_email (str s) e h = cc
  parse_event-user_id is_email (arr xs) e h = cc
