-- ===== src/Radio/Frame/Header.antt =====
-- The header of an IEEE 802.15.4 frame as a sender writes it, and what the driver
-- dev/cc2420-tsch.c reads of it.
use tsch_minimum.Prelude.{
  ℕ, ◌+◌, ◌*◌, ◌<◌, ◌≤◌, ◌≡◌, ◌≢◌, ◌⊎◌, refl, ap, ap₂, ◌∙◌, Bool, true, false, List, [], ◌∷◌, ◌++◌,
  arith, if◌then◌else◌, ltb, ◌==◌, inl, inr, set,
}
use tsch_minimum.Prelude.Words.{has_bit, low_bits}
use tsch_minimum.Contiki.{Addr}
use tsch_minimum.Radio.Frame.{
  flag, frame80254_parse_irq, extract_sender_address, source_mode, dest_mode, is_compressed,
  after_dest, after_pan, read_source,
}

-- An address: none, a short one, or a long one, of which the last byte is sent first.
pub data Address : Type 0 where
  absent : Address
  short : ℕ → ℕ → Address
  long : ℕ → ℕ → ℕ → ℕ → ℕ → ℕ → ℕ → ℕ → Address

abbrev pub mode : Address → ℕ
mode absent = 0
mode (short a b) = 2
mode (long a b c d e f g h) = 3

abbrev pub bytes : Address → List ℕ
bytes absent = []
bytes (short a b) = b ∷ a ∷ []
bytes (long a b c d e f g h) = h ∷ g ∷ f ∷ e ∷ d ∷ c ∷ b ∷ a ∷ []

-- The PAN is written before the address where there is one.
abbrev pub with_pan : ℕ → ℕ → Address → List ℕ
with_pan lo hi absent = []
with_pan lo hi a = lo ∷ hi ∷ bytes a

abbrev pub source_part : Bool → ℕ → ℕ → Address → List ℕ
source_part compressed lo hi absent = []
source_part compressed lo hi a = if compressed then bytes a else lo ∷ hi ∷ bytes a

pub record Header : Type 0 where
  pub frame_type : ℕ
  pub security : Bool
  pub pending : Bool
  pub ack_required : Bool
  pub compressed : Bool
  pub version : ℕ
  pub seqno : ℕ
  pub dest_lo : ℕ
  pub dest_hi : ℕ
  pub dest : Address
  pub src_lo : ℕ
  pub src_hi : ℕ
  pub src : Address

abbrev pub fcf_0 : Header → ℕ
fcf_0 h =
    h.frame_type
    + flag h.security 8
    + flag h.pending 16
    + flag h.ack_required 32
    + flag h.compressed 64

abbrev pub fcf_1 : Header → ℕ
fcf_1 h = 4 * mode h.dest + 16 * h.version + 64 * mode h.src

abbrev pub encode : Header → List ℕ
encode h =
    fcf_0 h
    ∷ fcf_1 h
    ∷ h.seqno
    ∷ (with_pan h.dest_lo h.dest_hi h.dest ++ source_part h.compressed h.src_lo h.src_hi h.src)

-- The address as a `rimeaddr_t`: a short one is `rimeaddr_null` but for the first two bytes.
abbrev pub rime : Addr → Address → Addr
rime null absent = null
rime null (short a b) = set (set null 0 a) 1 b
rime null (long a b c d e f g h) = a ∷ b ∷ c ∷ d ∷ e ∷ f ∷ g ∷ h ∷ []

abbrev pub Fits : Header → Type 0
Fits h = (h.frame_type < 8) × (h.version < 4)

mode_le : (a : Address) → mode a ≤ 3
mode_le absent = omega arith
mode_le (short a b) = omega arith
mode_le (long a b c d e f g h) = omega arith

source_mode-encode :
    (h : Header) (rest : List ℕ) → Fits h → source_mode (encode h ++ rest) ≡ mode h.src
source_mode-encode h rest fit = ground (arith, mode_le h.dest, mode_le h.src)

dest_mode-encode :
    (h : Header) (rest : List ℕ) → Fits h → dest_mode (encode h ++ rest) ≡ mode h.dest
dest_mode-encode h rest fit = ground (arith, mode_le h.dest, mode_le h.src)

is_compressed-encode :
    (h : Header) (rest : List ℕ) → Fits h → is_compressed (encode h ++ rest) ≡ h.compressed
is_compressed-encode h rest fit = ground arith

Address-cases : (a : Address) → (a ≡ absent) ⊎ (a ≢ absent)
Address-cases absent = inl refl
Address-cases (short a b) = inr (λ e. cc)
Address-cases (long a b c d e f g h) = inr (λ e. cc)

mode_pos : (a : Address) → a ≢ absent → 0 < mode a
mode_pos absent ne = absurd (ne refl)
mode_pos (short a b) ne = omega arith
mode_pos (long a b c d e f g h) ne = omega arith

-- Where the source address is read, it stands.
read-source_part :
    (null : Addr) (f₀ f₁ n dl dh sl sh : ℕ) (dest src : Address) (c : Bool) (rest : List ℕ)
    (a : Addr)
    → src ≢ absent
    → read_source null
        (f₀ ∷ f₁ ∷ n ∷ ((with_pan dl dh dest ++ source_part c sl sh src) ++ rest))
        (mode src)
        (after_pan c (after_dest (mode dest)))
        a
      ≡ rime null src
read-source_part null f₀ f₁ n dl dh sl sh dest absent c rest a some_src = absurd (some_src refl)
read-source_part null f₀ f₁ n dl dh sl sh absent (short x y) true rest a some_src = refl
read-source_part null f₀ f₁ n dl dh sl sh absent (short x y) false rest a some_src = refl
read-source_part null f₀ f₁ n dl dh sl sh (short u v) (short x y) true rest a some_src = refl
read-source_part null f₀ f₁ n dl dh sl sh (short u v) (short x y) false rest a some_src = refl
read-source_part null f₀ f₁ n dl dh sl sh (long _ _ _ _ _ _ _ _) (short x y) true rest a some_src =
    refl
read-source_part null f₀ f₁ n dl dh sl sh (long _ _ _ _ _ _ _ _) (short x y) false rest a some_src =
    refl
read-source_part null f₀ f₁ n dl dh sl sh absent (long _ _ _ _ _ _ _ _) true rest a some_src = refl
read-source_part null f₀ f₁ n dl dh sl sh absent (long _ _ _ _ _ _ _ _) false rest a some_src = refl
read-source_part null f₀ f₁ n dl dh sl sh (short u v) (long _ _ _ _ _ _ _ _) true rest a some_src =
    refl
read-source_part null f₀ f₁ n dl dh sl sh (short u v) (long _ _ _ _ _ _ _ _) false rest a some_src =
    refl
read-source_part null f₀ f₁ n dl dh sl sh (long _ _ _ _ _ _ _ _) (long _ _ _ _ _ _ _ _) true rest a
      some_src =
    refl
read-source_part null f₀ f₁ n dl dh sl sh (long _ _ _ _ _ _ _ _) (long _ _ _ _ _ _ _ _) false rest a
      some_src =
    refl

-- From a frame that starts with a written header, whatever follows it, the sender's address is read
-- back; for a header without one it is `rimeaddr_null`. The frame type and the version fit their
-- bits.
pub sender_read_back :
    (null : Addr) (h : Header) (rest : List ℕ) (len : ℕ) (a : Addr)
    → Fits h
    → 3 ≤ len
    → (extract_sender_address null
        (record { buf = encode h ++ rest; len = len; source_address = a })).source_address
      ≡ rime null h.src
unfolding extract_sender_address
sender_read_back null h rest len a fit enough = elim (Address-cases h.src) [
  | inl e ↦ ground (arith, source_mode-encode h rest fit, e)
  | inr ne ↦ ground (
    arith,
    source_mode-encode h rest fit,
    dest_mode-encode h rest fit,
    is_compressed-encode h rest fit,
    mode_pos h.src ne,
    read-source_part null (fcf_0 h) (fcf_1 h) h.seqno h.dest_lo h.dest_hi h.src_lo h.src_hi h.dest
        h.src h.compressed rest a ne,
  )
]

-- From the same frame the interrupt learns whether an acknowledgment is asked for, and whether it is
-- a data frame or itself an acknowledgment, once it has three bytes.
pub flags_read_back :
    (h : Header) (rest : List ℕ) (len : ℕ)
    → Fits h
    → 3 ≤ len
    → frame80254_parse_irq (encode h ++ rest) len
      ≡ flag h.ack_required 2 + flag (h.frame_type == 1) 4 + flag (h.frame_type == 2) 8
unfolding frame80254_parse_irq
flags_read_back h rest len fit enough =
    long_enough
    ∙ ap₂ ◌+◌ (ap₂ ◌+◌ ack_bit (ap (λ t. flag (t == 1) 4) type_bits))
        (ap (λ t. flag (t == 2) 8) type_bits)
  where
    flags : ℕ
    flags =
        flag (has_bit (fcf_0 h) 5) 2
        + flag (low_bits (fcf_0 h) 3 == 1) 4
        + flag (low_bits (fcf_0 h) 3 == 2) 8

    long_enough : (if ltb len 3 then 0 else flags) ≡ flags
    long_enough = ground arith

    ack_bit : flag (has_bit (fcf_0 h) 5) 2 ≡ flag h.ack_required 2
    ack_bit = ground arith

    type_bits : low_bits (fcf_0 h) 3 ≡ h.frame_type
    type_bits = ground arith
