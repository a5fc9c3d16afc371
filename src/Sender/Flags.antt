-- ===== src/Sender/Flags.antt =====
-- service/sender.py and service/method.py: the flags of a content header, as they are written and
-- read. Each property has a bit of its own, and the tables go down from bit 15 to bit 2.
use mock_amqp_server.Prelude.{
  ℕ, zero, suc, ◌+◌, ◌*◌, ◌%◌, ◌^◌, ◌<◌, ◌≡◌, refl, ap, ◌∙◌, true, false, none, some, List, [], ◌∷◌,
  ◌++◌, map, append-nil, append_assoc, arith, nat_eq, Option-cases, inl, inr,
}
use mock_amqp_server.Python.{Str, Bytes, ok}
use mock_amqp_server.Serialization.{
  Value, Codec, Decoded, to_values, obj, Fields, end, field, Format,
}
use mock_amqp_server.Sender.Content.{Chosen, choose, choose_all, property, lookup_field}
use mock_amqp_server.Sender.Content
use mock_amqp_server.Method.NewHeader.{flagged, zip_fields, new_header}
use mock_amqp_server.Method.NewHeader
use mock_amqp_server.Sender.Bits.{
  shifted, bit_and-shifted, shifted_pos, shifted-succ, shifted-double, shifted-zero,
}
use Prim.Native.Nat.{bit_and}

-- Entries whose bits go down from `k`, none left out.
abbrev pub GoesDown : ℕ → List (Str × Format × ℕ) → Type 0
GoesDown k [] = Unit {0}
GoesDown zero (entry ∷ rest) = ⊥
GoesDown (suc k) ((name, format, bit) ∷ rest) = (bit ≡ shifted k 1) × GoesDown k rest

-- the fields of the table that are there, in the order of the table
abbrev pub known_fields : Fields → List (Str × Format × ℕ) → Fields
known_fields fields [] = end
known_fields fields ((name, format, bit) ∷ rest) = elim (lookup_field name fields) [
  | none ↦ known_fields fields rest
  | some v ↦ field name v (known_fields fields rest)
]

abbrev pub names_of : List (Str × Format) → List Str
names_of = map (λ (p : Str × Format). p.0)

abbrev pub formats_of : List (Str × Format) → List Format
formats_of = map (λ (p : Str × Format). p.1)

-- What the loop over a table adds to `high`, the bits above, and to the lists.
record Reads (fields : Fields) (k high : ℕ) (table : List (Str × Format × ℕ))
    (formats : List Format) (values : List Value) (out : Chosen) : Type 0 where
  low : ℕ
  is_low : low < shifted k 1
  flags : out.0 ≡ shifted k high + low
  values_read : List Value
  formats_out : out.1 ≡ formats ++ formats_of (flagged out.0 table)
  values_out : out.2 ≡ values ++ values_read
  fields_out : zip_fields (names_of (flagged out.0 table)) values_read ≡ known_fields fields table

module _ (name : Str) (format : Format) (rest : List (Str × Format × ℕ)) (k x low flags bit : ℕ)
    (is_low : low < shifted k 1) (split : flags ≡ shifted k x + low) (own : bit ≡ shifted k 1) where
  own_bit : bit_and flags bit ≡ shifted k (x % 2)
  own_bit = rw (split, own) (bit_and-shifted k x low is_low)

  flagged-absent : x % 2 ≡ 0 → flagged flags ((name, format, bit) ∷ rest) ≡ flagged flags rest
  unfolding flagged
  flagged-absent even =
      let clear : nat_eq (bit_and flags bit) 0 ≡ true =
        rw own_bit (rw even (ground (arith, shifted-zero k))) in
      rw clear refl

  flagged-present :
      x % 2 ≡ 1 → flagged flags ((name, format, bit) ∷ rest) ≡ (name, format) ∷ flagged flags rest
  unfolding flagged
  flagged-present odd =
      let set : nat_eq (bit_and flags bit) 0 ≡ false =
        rw own_bit (rw odd (ground (arith, shifted_pos k))) in
      rw set refl

module _ (fields : Fields) where
  Reads-absent :
      (name : Str) (format : Format) (bit k high : ℕ) (rest : List (Str × Format × ℕ))
      (formats : List Format) (values : List Value) (out : Chosen)
      → bit ≡ shifted k 1
      → lookup_field name fields ≡ none
      → Reads fields k (2 * high) rest formats values out
      → Reads fields (suc k) high ((name, format, bit) ∷ rest) formats values out
  Reads-absent name format bit k high rest formats values out own missing r =
      let same =
        flagged-absent name format rest k (2 * high) r.low out.0 bit r.is_low r.flags own
          (omega arith) in
      record {
        low = r.low;
        is_low = omega (arith, r.is_low);
        flags = r.flags ∙ (omega (arith, shifted-double k high));
        values_read = r.values_read;
        formats_out = rw same r.formats_out;
        values_out = r.values_out;
        fields_out = rw same (rw (missing, known_fields) r.fields_out);
      }

  Reads-present :
      (name : Str) (format : Format) (bit k high : ℕ) (rest : List (Str × Format × ℕ)) (v : Value)
      (formats : List Format) (values : List Value) (out : Chosen)
      → bit ≡ shifted k 1
      → lookup_field name fields ≡ some v
      → Reads fields k (2 * high + 1) rest (formats ++ format ∷ []) (values ++ v ∷ []) out
      → Reads fields (suc k) high ((name, format, bit) ∷ rest) formats values out
  unfolding zip_fields
  Reads-present name format bit k high rest v formats values out own there r =
      let same =
        flagged-present name format rest k (2 * high + 1) r.low out.0 bit r.is_low r.flags own
          (omega arith) in
      record {
        low = shifted k 1 + r.low;
        is_low = omega (arith, r.is_low);
        flags = r.flags ∙ (omega (arith, shifted-double k high, shifted-succ k (2 * high)));
        values_read = v ∷ r.values_read;
        formats_out = rw same (r.formats_out ∙ append_assoc formats (format ∷ []) _);
        values_out = r.values_out ∙ append_assoc values (v ∷ []) r.values_read;
        fields_out =
            rw same (rw (there, known_fields) (ap (λ (d : Fields). field name v d) r.fields_out));
      }

  choose_all-Reads :
      (table : List (Str × Format × ℕ)) (k high : ℕ) (formats : List Format) (values : List Value)
      (out : Chosen)
      → GoesDown k table
      → choose_all (obj fields) table (shifted k high, formats, values) ≡ ok out
      → Reads fields k high table formats values out
  unfolding choose_all flagged zip_fields property
  choose_all-Reads [] k high formats values out goes e =
      let same : (shifted k high, formats, values) ≡ out = cc in
      rw⁻¹ same (record {
        low = 0;
        is_low = shifted_pos k;
        flags = omega arith;
        values_read = [];
        formats_out = rw append-nil;
        values_out = rw append-nil;
        fields_out = refl;
      })
  choose_all-Reads (entry ∷ rest) zero high formats values out goes e = absurd goes
  choose_all-Reads ((name, format, bit) ∷ rest) (suc k) high formats values out goes e =
      elim (Option-cases (lookup_field name fields)) [
        | inl missing ↦ Reads-absent name format bit k high rest formats values out goes.0 missing (
            choose_all-Reads rest k (2 * high) formats values out goes.1
              (rw missing at (rw (shifted-double k high) at e)))
        | inr (v, there) ↦
            let above : shifted (suc k) high + bit ≡ shifted k (2 * high + 1) =
              omega (arith, goes.0, shifted-double k high, shifted-succ k (2 * high)) in
            Reads-present name format bit k high rest v formats values out goes.0 there (
              choose_all-Reads rest k (2 * high + 1) (formats ++ format ∷ []) (values ++ v ∷ []) out
                goes.1 (rw above at (rw there at e)))
      ]

  -- A dictionary can be asked for any name.
  choose_all-total :
      (table : List (Str × Format × ℕ)) (chosen : Chosen)
      → (out : Chosen) × (choose_all (obj fields) table chosen ≡ ok out)
  unfolding choose_all property
  choose_all-total [] chosen = (chosen, refl)
  choose_all-total ((name, format, bit) ∷ rest) chosen =
      choose_all-total rest (choose format bit (lookup_field name fields) chosen)

table_down : GoesDown 16 Content.properties_table
table_down = omega arith

-- The loop of `send_content_header` succeeds for every dictionary of properties, and its flags fit
-- into two bytes. The constructor of `Header` chooses by these flags the letters of the format that
-- was written. If the codec reads back the values that were written behind the flags, the header
-- has the properties of the dictionary that AMQP knows, with their values, and no other.
pub new_header-choose_all :
    ⦃codec : Codec⦄ (fields : Fields)
    → (chosen : Chosen) × (choose_all (obj fields) Content.properties_table (0, [], []) ≡ ok chosen)
      × (chosen.0 < 2 ^ 16)
      × (chosen.1 ≡ formats_of (flagged chosen.0 NewHeader.properties_table))
      × ((channel size class_id body_size : ℕ) (payload : Bytes) (offset : ℕ)
            (d : Decoded (formats_of (flagged chosen.0 NewHeader.properties_table)))
          → codec.loads (formats_of (flagged chosen.0 NewHeader.properties_table)) payload 14
            ≡ ok (d, offset)
          → to_values (formats_of (flagged chosen.0 NewHeader.properties_table)) d ≡ chosen.2
          → new_header channel size class_id body_size chosen.0 payload
            ≡ ok (record {
              channel_number = channel;
              size = size;
              class_id = class_id;
              body_size = body_size;
              properties = known_fields fields NewHeader.properties_table;
            }))
unfolding new_header
new_header-choose_all fields =
    let (chosen, e) = choose_all-total fields Content.properties_table (0, [], []) in
    let r = choose_all-Reads fields Content.properties_table 16 0 [] [] chosen table_down e in
    (
      chosen,
      e,
      omega (arith, r.flags, r.is_low),
      r.formats_out,
      λ channel size class_id body_size payload offset d read back.
          rw read (rw back (rw r.values_out (rw r.fields_out refl))),
    )
