-- ===== src/Options/Selection.antt =====
-- What the options of a client select, by the last option of each kind.
use argos.Base.{
  ◌≡◌, refl, ap, ◌∙◌, if◌then◌else◌, List, [], ◌∷◌, Option, none, some, arith, inl, inr,
}
use argos.Base.Bytes.{Bytes}
use argos.Base.Result.{ok, Result-cases}
use argos.Status.{is_empty}
use argos.Server.{find}
use argos.Options.Services.{ServiceOptions}
use argos.Options.{
  Options, ClientOption, nil_option, with_client_options, with_service_name, with_target,
  with_transport, with_codec, clone, apply_client, base_of, apply_all, validate, client_options,
  or_named, or_service, selected_service,
}

abbrev pub or_before : {A : Type 0} → Option A → Option A → Option A
or_before none b = b
or_before (some a) b = some a

or_named-before :
    (a b : Option Bytes) (x y : Bytes)
    → y ≡ or_named b x
    → or_named a y ≡ or_named (or_before a b) x
or_named-before none b x y h = h
or_named-before (some v) b x y h = refl

or_before_assoc :
    (a b x y : Option Bytes) → y ≡ or_before b x → or_before a y ≡ or_before (or_before a b) x
or_before_assoc none b x y h = h
or_before_assoc (some v) b x y h = refl

or_before-none : {A : Type 0} (a : Option A) → or_before a none ≡ a
or_before-none none = refl
or_before-none (some x) = refl

abbrev pub picked :
    Bytes
    → Bytes
    → Option Bytes
    → Option Bytes
    → List (Bytes × ServiceOptions)
    → Bytes × ServiceOptions
picked name target transport codec services =
    let sel = or_service (find name services) in
    (
      name,
      record sel {
        transport = or_named transport sel.transport;
        codec = or_named codec sel.codec;
        target = if is_empty target then sel.target else target;
      },
    )

module _ {F O : Type 0} where
  -- What an option sets, of each kind of option.
  abbrev pub names : ClientOption F O → Option Bytes
  names (with_service_name n) = some n
  names nil_option = none
  names o = none

  abbrev pub targets : ClientOption F O → Option Bytes
  targets (with_target n) = some n
  targets nil_option = none
  targets o = none

  abbrev pub transports : ClientOption F O → Option Bytes
  transports (with_transport n) = some n
  transports nil_option = none
  transports o = none

  abbrev pub codecs : ClientOption F O → Option Bytes
  codecs (with_codec n) = some n
  codecs nil_option = none
  codecs o = none

  abbrev pub bases : ClientOption F O → Option (Options F O)
  bases (with_client_options b) = b
  bases nil_option = none
  bases o = none

  -- The last that the options set.
  abbrev pub last_of :
      {A : Type 0} → (ClientOption F O → Option A) → List (ClientOption F O) → Option A
  last_of f [] = none
  last_of f (o ∷ os) = or_before (last_of f os) (f o)

  -- The fields that `SelectedService` reads, behind one option and behind all.
  abbrev Selects :
      Option Bytes → Option Bytes → Option Bytes → Option Bytes → Options F O → Options F O → Type 0
  Selects n t tr cd c d =
      (d.service_name ≡ or_named n c.service_name)
      × (d.target_override ≡ or_named t c.target_override)
      × (d.override_transport ≡ or_before tr c.override_transport)
      × (d.override_codec ≡ or_before cd c.override_codec)
      × (d.services ≡ c.services)

  apply_client-Selects :
      (o : ClientOption F O) (c : Options F O)
      → Selects (names o) (targets o) (transports o) (codecs o) c (apply_client o c)
  unfolding apply_client
  apply_client-Selects nil_option c = (refl, refl, refl, refl, refl)
  apply_client-Selects o c = (refl, refl, refl, refl, refl)

  apply_all-Selects :
      (os : List (ClientOption F O)) (c : Options F O)
      → Selects
          (last_of names os)
          (last_of targets os)
          (last_of transports os)
          (last_of codecs os)
          c
          (apply_all os c)
  unfolding apply_all
  apply_all-Selects [] c = (refl, refl, refl, refl, refl)
  apply_all-Selects (o ∷ os) c =
      let one = apply_client-Selects o c in
      let all = apply_all-Selects os (apply_client o c) in
      (
        all.0 ∙ or_named-before (last_of names os) (names o) c.service_name _ one.0,
        all.1 ∙ or_named-before (last_of targets os) (targets o) c.target_override _ one.1,
        all.2 ∙ or_before_assoc (last_of transports os) (transports o) c.override_transport _ one.2,
        all.3 ∙ or_before_assoc (last_of codecs os) (codecs o) c.override_codec _ one.3,
        all.4 ∙ one.4,
      )

  abbrev pub or_base : Option (Options F O) → Options F O → Options F O
  or_base none c = c
  or_base (some b) c = b

  or_base-some :
      (x : Option (Options F O)) (d c : Options F O)
      → or_base x d ≡ or_base (or_before x (some d)) c
  or_base-some none d c = refl
  or_base-some (some b) d c = refl

  or_base-none :
      (x : Option (Options F O)) (c : Options F O) → or_base x c ≡ or_base (or_before x none) c
  or_base-none none c = refl
  or_base-none (some b) c = refl

  base_of-last :
      (c b : Options F O) (os : List (ClientOption F O))
      → base_of c os ≡ ok b
      → b ≡ or_base (last_of bases os) c
  unfolding base_of
  base_of-last c b [] h = ground arith
  base_of-last c b (nil_option ∷ os) h = ground arith
  base_of-last c b (with_client_options (some d) ∷ os) h =
      base_of-last d b os h ∙ or_base-some (last_of bases os) d c
  base_of-last c b (with_client_options none ∷ os) h =
      base_of-last c b os h ∙ or_base-none (last_of bases os) c
  base_of-last c b (o ∷ os) h = base_of-last c b os h ∙ or_base-none (last_of bases os) c

  -- What a client selects, by the last option of each kind alone.
  abbrev pub selection : Options F O → List (ClientOption F O) → Bytes × ServiceOptions
  selection default os =
      picked (or_named (last_of names os) []) (or_named (last_of targets os) [])
        (last_of transports os) (last_of codecs os) (or_base (last_of bases os) default).services

  validate-ok : (c d : Options F O) → validate c ≡ ok d → d ≡ c
  unfolding validate
  validate-ok c d h = ground arith

  -- The name, the target, the transport, the codec and the service of a client's options are those
  -- of the last option of each kind, if there is one (and, for the target, if it is not empty), else
  -- those that the last base, or the process default, has for the service; what the base itself had
  -- selected plays no part.
  pub selected_service-client_options :
      (default c : Options F O) (os : List (ClientOption F O))
      → client_options default os ≡ ok c
      → selected_service c ≡ selection default os
  unfolding client_options selected_service clone
  selected_service-client_options default c os h = elim (Result-cases (base_of default os)) [
    | inl (e, b) ↦ ground (arith, b)
    | inr (b, o) ↦
        let v = validate-ok (apply_all os (clone b)) c (ground (arith, o)) in
        let all = apply_all-Selects os (clone b) in
        ap selected_service v ∙ λ i.
        picked (all.0 i) (all.1 i) ((all.2 ∙ or_before-none (last_of transports os)) i)
          ((all.3 ∙ or_before-none (last_of codecs os)) i)
          ((all.4 ∙ ap (λ x. x.services) (base_of-last default b os o)) i)
  ]
