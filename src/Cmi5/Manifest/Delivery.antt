-- ===== src/Cmi5/Manifest/Delivery.antt =====
-- cmi5/src/manifest.rs, `push_attribute` against `normalized_value`: what the reader is given for the
-- events that were written. XML reads a tab or a line break in an attribute as a space, so the reader has
-- not always the value that was written; a text is not changed like that.
use Prim.Native.Char.{Char, code}
use cooperative_systems_spac.Prelude.{
  ◌≡◌, refl, ap, Bool, true, ◌||◌, not, List, [], ◌∷◌, map, all, String, ◌==◌, nat_eq, any_char,
  Result, ok, err, arith,
}
use cooperative_systems_spac.Cmi5.Manifest.{ManifestError}
use cooperative_systems_spac.Cmi5.Manifest.Events.{Event, Attributes}

-- A tab, a line feed or a carriage return.
abbrev pub is_break : Char → Bool
is_break c = let n = code c in n == 9 || n == 10 || n == 13

abbrev pub is_plain : String → Bool
is_plain s = not (any_char is_break s)

-- What the XML library promises of a value that is written as an attribute and normalized when it is read:
-- without a tab and a line break it is the value.
abbrev pub KeepsPlain : (String → String) → Type 0
KeepsPlain normalized = (s : String) → is_plain s ≡ true → normalized s ≡ s

abbrev plain_attribute : Result ManifestError (String × String) → Bool
plain_attribute (ok (key, value)) = is_plain value
plain_attribute (err e) = true

abbrev plain_event : Event → Bool
plain_event (Event.start name attributes) = all plain_attribute attributes
plain_event (Event.empty name attributes) = all plain_attribute attributes
plain_event _ = true

-- No attribute of the events has a tab or a line break.
unfoldable pub have_plain_attributes : List Event → Bool
have_plain_attributes events = all plain_event events

module _ (normalized : String → String) where
  abbrev deliver_attribute :
      Result ManifestError (String × String) → Result ManifestError (String × String)
  deliver_attribute (ok (key, value)) = ok (key, normalized value)
  deliver_attribute (err e) = err e

  abbrev deliver_event : Event → Event
  deliver_event (Event.start name attributes) = Event.start name (map deliver_attribute attributes)
  deliver_event (Event.empty name attributes) = Event.empty name (map deliver_attribute attributes)
  deliver_event event = event

  -- The written events as the reader gets them.
  unfoldable pub deliver : List Event → List Event
  deliver events = map deliver_event events

module _ (normalized : String → String) (keeps : KeepsPlain normalized) where
  attribute-plain :
      (a : Result ManifestError (String × String))
      → plain_attribute a ≡ true
      → deliver_attribute normalized a ≡ a
  attribute-plain (ok (key, value)) h = rw (keeps value h) refl
  attribute-plain (err e) h = refl

  attributes-plain :
      (attributes : Attributes)
      → all plain_attribute attributes ≡ true
      → map (deliver_attribute normalized) attributes ≡ attributes
  attributes-plain [] h = refl
  attributes-plain (a ∷ attributes) h =
      rw (attribute-plain a (ground (arith, h)), attributes-plain attributes (ground (arith, h)))
        refl

  event-plain : (e : Event) → plain_event e ≡ true → deliver_event normalized e ≡ e
  event-plain (Event.start name attributes) h =
      ap (Event.start name) (attributes-plain attributes h)
  event-plain (Event.empty name attributes) h =
      ap (Event.empty name) (attributes-plain attributes h)
  event-plain (Event.end_tag name) h = refl
  event-plain (Event.text s) h = refl
  event-plain (Event.cdata s) h = refl
  event-plain (Event.general_ref s) h = refl
  event-plain Event.other h = refl
  event-plain (Event.fault e) h = refl

  -- Events without a tab or a line break in an attribute arrive as they were written.
  pub deliver-plain :
      (events : List Event)
      → have_plain_attributes events ≡ true
      → deliver normalized events ≡ events
  unfolding have_plain_attributes deliver
  deliver-plain [] h = refl
  deliver-plain (e ∷ events) h =
      rw (event-plain e (ground (arith, h)), deliver-plain events (ground (arith, h))) refl
