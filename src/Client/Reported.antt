-- ===== src/Client/Reported.antt =====
-- What a Modbus message with input registers makes the client report, described on its own: for which
-- device, when nothing is reported, and which values.
use gro_bro.Prelude.{
  ◌>>=◌, ◌≡◌, ◌≢◌, ◌⊎◌, refl, ap, ◌∙◌, inl, inr, Bool, true, false, ◌&&◌, ◌||◌, Option, none, some,
  List, [], ◌∷◌, arith, leb, if◌then◌else◌, Option-cases,
}
use gro_bro.Bytes.{Text}
use gro_bro.Dicts.{codes}
use gro_bro.Register.{parse_value, ℤ, pos, negsuc, Value, text, integer, number}
use gro_bro.Family.{is_text, get_known_registers, RegisterMap}
use gro_bro.Modbus.Device.{read_input_register}
use gro_bro.Modbus.Registers.{get_data}
use gro_bro.Modbus.Block.{Block}
use gro_bro.Modbus.Message.{Message}
use gro_bro.Client.State.{ptq_of, Bridge, Action, input_state}
use gro_bro.Client.Telemetry.{
  is_impossible, input_values, add_input, unless_empty, device_actions, known_registers,
  message_actions, InputRegister, Registers,
}

-- The device that a message is about: the inverter that is known behind the sender, or the sender.
abbrev pub IsTarget : List (Text × Text) → Text → Text → Type 0
IsTarget gateways device_id target =
    ((ptq_of device_id gateways ≡ some target) × (target ≢ []))
    ⊎ (((ptq_of device_id gateways ≡ none) ⊎ (ptq_of device_id gateways ≡ some []))
        × (target ≡ device_id))

added :
    {A : Type 0} (drops dropped : Bool) (x : A) (rest : List A)
    → (if drops
        then none
        else (if dropped then none else some rest) >>= λ values. some (x ∷ values))
      ≡ (if drops || dropped then none else some (x ∷ rest))
added true dropped x rest = refl
added false true x rest = refl
added false false x rest = refl

module _ (Float : Type 0) (rounded : ℤ → Float) (scaled : ℤ → Float → Float)
    (shifted : ℤ → Float → Float → Float) (exceeds is_one : Float → Bool) where
  abbrev V : Type 0
  V = Value Float rounded scaled shifted

  abbrev Input : Type 0
  Input = InputRegister Float rounded scaled shifted exceeds is_one

  -- More than 1000000.
  abbrev pub is_too_high : V → Bool
  is_too_high (text t) = false
  is_too_high (integer (pos n)) = leb 1000001 n
  is_too_high (integer (negsuc n)) = false
  is_too_high (number x) = exceeds x

  -- The value of a register in the blocks of a message, if they have it.
  abbrev pub reading : List Block → Input → Option V
  reading blocks r = parse_value Float rounded scaled shifted r.options (get_data blocks r.position)

  abbrev pub is_dropping : Text → Option V → Bool
  is_dropping name none = false
  is_dropping name (some v) = is_text name (codes "Ppv") && is_too_high v

  abbrev pub named : Text → Option V → List (Text × V) → List (Text × V)
  named name none rest = rest
  named name (some v) rest = (name, v) ∷ rest

  -- The PV power is too high to be true.
  abbrev pub is_dropped : List Block → List Input → Bool
  is_dropped blocks [] = false
  is_dropped blocks (r ∷ rs) = is_dropping r.name (reading blocks r) || is_dropped blocks rs

  -- The registers that the message has, in the order of the map, with their values.
  abbrev pub readings : List Block → List Input → List (Text × V)
  readings blocks [] = []
  readings blocks (r ∷ rs) = named r.name (reading blocks r) (readings blocks rs)

  abbrev pub one_report : Text → List (Text × V) → List (Action V)
  one_report target [] = []
  one_report target (v ∷ vs) = input_state target (v ∷ vs) ∷ []

  is_impossible-is_too_high :
      (v : V) → is_impossible Float rounded scaled shifted exceeds is_one v ≡ is_too_high v
  is_impossible-is_too_high (text t) = refl
  is_impossible-is_too_high (integer (pos n)) = ground arith
  is_impossible-is_too_high (integer (negsuc n)) = refl
  is_impossible-is_too_high (number x) = refl

  add_input-reading :
      (r : Input) (o : Option V) (dropped : Bool) (rest : List (Text × V))
      → add_input Float rounded scaled shifted exceeds is_one r o
          (if dropped then none else some rest)
        ≡ (if is_dropping r.name o || dropped then none else some (named r.name o rest))
  add_input-reading r none dropped rest = refl
  add_input-reading r (some v) dropped rest =
      rw (is_impossible-is_too_high v)
        (added (is_text r.name (codes "Ppv") && is_too_high v) dropped (r.name, v) rest)

  input_values-readings :
      (blocks : List Block) (rs : List Input)
      → input_values Float rounded scaled shifted exceeds is_one blocks rs
        ≡ (if is_dropped blocks rs then none else some (readings blocks rs))
  unfolding input_values
  input_values-readings blocks [] = refl
  input_values-readings blocks (r ∷ rs) =
      ap (add_input Float rounded scaled shifted exceeds is_one r (reading blocks r))
        (input_values-readings blocks rs)
      ∙ add_input-reading r (reading blocks r) (is_dropped blocks rs) (readings blocks rs)

  module _ (maps : RegisterMap → Registers Float rounded scaled shifted exceeds is_one) where
    -- The report for a device: nothing where it has no register map, where its PV power is too high, or
    -- where the message has none of its registers.
    abbrev pub report : Text → Option RegisterMap → List Block → List (Action V)
    report target none blocks = []
    report target (some m) blocks =
        if is_dropped blocks (maps m).input_registers
        then []
        else one_report target (readings blocks (maps m).input_registers)

    unless_empty-report :
        (target : Text) (dropped : Bool) (values : List (Text × V))
        → unless_empty Float rounded scaled shifted exceeds is_one
            (input_state target)
            (if dropped then none else some values)
          ≡ (if dropped then [] else one_report target values)
    unless_empty-report target true values = refl
    unless_empty-report target false [] = refl
    unless_empty-report target false (v ∷ vs) = refl

    report-device_actions :
        (target : Text) (o : Option RegisterMap) (m : Message)
        → get_known_registers target ≡ o
        → m.function ≡ read_input_register
        → device_actions Float rounded scaled shifted exceeds is_one maps target
            (known_registers Float rounded scaled shifted exceeds is_one maps target)
            m
          ≡ report target o m.register_blocks
    report-device_actions target none m e f = rw (known_registers, e) refl
    report-device_actions target (some map) m e f =
        rw
          (
            known_registers,
            e,
            f,
            input_values-readings m.register_blocks (maps map).input_registers,
          )
          (unless_empty-report target (is_dropped m.register_blocks (maps map).input_registers)
            (readings m.register_blocks (maps map).input_registers))

    -- What the code reports is this report, for the device that the message is about.
    pub message_actions-report :
        (s : Bridge) (device_id : Text) (m : Message)
        → m.function ≡ read_input_register
        → (target : Text) × IsTarget s.gateways device_id target
          × (message_actions Float rounded scaled shifted exceeds is_one maps s device_id m
              ≡ report target (get_known_registers target) m.register_blocks)
    message_actions-report s device_id m f = elim (Option-cases (ptq_of device_id s.gateways)) [
      | inl unknown ↦ (
        device_id,
        inr (inl unknown, refl),
        rw unknown (report-device_actions device_id _ m refl f),
      )
      | inr ([], e) ↦
          (device_id, inr (inr e, refl), rw e (report-device_actions device_id _ m refl f))
      | inr (c ∷ target, e) ↦
          (c ∷ target, inl (e, λ wrong. cc), rw e (report-device_actions (c ∷ target) _ m refl f))
    ]
