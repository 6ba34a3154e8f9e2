-- ===== src/Senml/Cbor/RoundTrip.antt =====
-- What is written as CBOR is read back.
use coapum.Prelude.{
  ℤ, fits, ◌≡◌, refl, ap, ◌∙◌, true, Option, none, some, List, [], ◌∷◌, ◌++◌, map, All, ok, err,
}
use coapum.Senml.{Double, validation_error}
use coapum.Senml.Record
use coapum.Senml.Record.{SenmlRecord, passes}
use coapum.Senml.Pack.{SenmlPack}
use coapum.Senml.Builder.{SenmlBuilder, build, has_base_values}
use coapum.Senml.Builder.Laws.{build-invalid}
use coapum.Senml.Cbor.Labels
use coapum.Senml.Cbor.{
  Ciborium, push_opt, pairs_of, as_f64, as_i32, set_field, read_pair, read_pairs,
  record_to_cbor_value, cbor_value_to_record, pack_to_value, value_to_pack, to_cbor, from_cbor,
  from_cbor_validated, collect,
}

module _ (double : Double) (cbor : Ciborium double.Num) where
  open double use {Num}
  open cbor use {Value, Wire}

  -- A field that is written under its label is put into the record that is read.
  abbrev CarriesField :
      {A : Type 0} → ℤ → (A → Value) → (SenmlRecord Num → Option A → SenmlRecord Num) → Type 0
  CarriesField {A = A} label conv put =
      (r : SenmlRecord Num) (o : Option A) (ps : List (Value × Value))
      → read_pairs double cbor (put r none) (push_opt double cbor label conv o ++ ps)
        ≡ read_pairs double cbor (put r o) ps

  reads :
      {A : Type 0} (label : ℤ) (conv : A → Value)
      (put : SenmlRecord Num → Option A → SenmlRecord Num)
      → fits 9223372036854775808 label ≡ true
      → ((r : SenmlRecord Num) (a : A)
          → set_field double cbor label (conv a) (put r none) ≡ put r (some a))
      → CarriesField label conv put
  unfolding read_pairs read_pair
  reads label conv put e h r none ps = refl
  reads label conv put e h r (some a) ps =
      rw (cbor.as_integer-integer label, e) (ap (λ r. read_pairs double cbor r ps) (h r a))

  as_f64-float : (x : Num) → as_f64 double cbor (cbor.float x) ≡ some x
  unfolding as_f64
  as_f64-float x = rw (as_f64, cbor.as_float-float x) refl

  -- A number of 32 bits is read back.
  as_i32-integer : (i : ℤ) → fits 2147483648 i ≡ true → as_i32 double cbor (cbor.integer i) ≡ some i
  unfolding as_i32
  as_i32-integer i e = rw (as_i32, cbor.as_integer-integer i, e) refl

  reads_bn : CarriesField Labels.bn cbor.text (λ r o. record r { bn = o })
  unfolding set_field
  reads_bn =
      reads Labels.bn cbor.text (λ r o. record r { bn = o }) refl
        (λ r a. rw (cbor.as_text-text a) refl)

  reads_bt : CarriesField Labels.bt cbor.float (λ r o. record r { bt = o })
  unfolding set_field
  reads_bt =
      reads Labels.bt cbor.float (λ r o. record r { bt = o }) refl (λ r a. rw (as_f64-float a) refl)

  reads_bu : CarriesField Labels.bu cbor.text (λ r o. record r { bu = o })
  unfolding set_field
  reads_bu =
      reads Labels.bu cbor.text (λ r o. record r { bu = o }) refl
        (λ r a. rw (cbor.as_text-text a) refl)

  reads_bv : CarriesField Labels.bv cbor.float (λ r o. record r { bv = o })
  unfolding set_field
  reads_bv =
      reads Labels.bv cbor.float (λ r o. record r { bv = o }) refl (λ r a. rw (as_f64-float a) refl)

  reads_bs : CarriesField Labels.bs cbor.float (λ r o. record r { bs = o })
  unfolding set_field
  reads_bs =
      reads Labels.bs cbor.float (λ r o. record r { bs = o }) refl (λ r a. rw (as_f64-float a) refl)

  reads_n : CarriesField Labels.n cbor.text (λ r o. record r { n = o })
  unfolding set_field
  reads_n =
      reads Labels.n cbor.text (λ r o. record r { n = o }) refl
        (λ r a. rw (cbor.as_text-text a) refl)

  reads_u : CarriesField Labels.u cbor.text (λ r o. record r { u = o })
  unfolding set_field
  reads_u =
      reads Labels.u cbor.text (λ r o. record r { u = o }) refl
        (λ r a. rw (cbor.as_text-text a) refl)

  reads_v : CarriesField Labels.v cbor.float (λ r o. record r { v = o })
  unfolding set_field
  reads_v =
      reads Labels.v cbor.float (λ r o. record r { v = o }) refl (λ r a. rw (as_f64-float a) refl)

  reads_vs : CarriesField Labels.vs cbor.text (λ r o. record r { vs = o })
  unfolding set_field
  reads_vs =
      reads Labels.vs cbor.text (λ r o. record r { vs = o }) refl
        (λ r a. rw (cbor.as_text-text a) refl)

  reads_vb : CarriesField Labels.vb cbor.bool (λ r o. record r { vb = o })
  unfolding set_field
  reads_vb =
      reads Labels.vb cbor.bool (λ r o. record r { vb = o }) refl
        (λ r a. rw (cbor.as_bool-bool a) refl)

  reads_vd : CarriesField Labels.vd cbor.text (λ r o. record r { vd = o })
  unfolding set_field
  reads_vd =
      reads Labels.vd cbor.text (λ r o. record r { vd = o }) refl
        (λ r a. rw (cbor.as_text-text a) refl)

  reads_s : CarriesField Labels.s cbor.float (λ r o. record r { s = o })
  unfolding set_field
  reads_s =
      reads Labels.s cbor.float (λ r o. record r { s = o }) refl (λ r a. rw (as_f64-float a) refl)

  reads_t : CarriesField Labels.t cbor.float (λ r o. record r { t = o })
  unfolding set_field
  reads_t =
      reads Labels.t cbor.float (λ r o. record r { t = o }) refl (λ r a. rw (as_f64-float a) refl)

  reads_ut : CarriesField Labels.ut cbor.float (λ r o. record r { ut = o })
  unfolding set_field
  reads_ut =
      reads Labels.ut cbor.float (λ r o. record r { ut = o }) refl (λ r a. rw (as_f64-float a) refl)

  reads_bver :
      (r : SenmlRecord Num) (o : Option ℤ) (ps : List (Value × Value))
      → passes (fits 2147483648) o ≡ true
      → read_pairs double cbor
          (record r { bver = none })
          (push_opt double cbor Labels.bver cbor.integer o ++ ps)
        ≡ read_pairs double cbor (record r { bver = o }) ps
  unfolding read_pairs read_pair set_field
  reads_bver r none ps e = refl
  reads_bver r (some i) ps e = rw (cbor.as_integer-integer Labels.bver, as_i32-integer i e) refl

  -- The version of a record is a number of 32 bits, as its type says.
  abbrev pub HasVersion32 : SenmlRecord Num → Type 0
  HasVersion32 r = passes (fits 2147483648) r.bver ≡ true

  read_pairs-pairs_of :
      (r : SenmlRecord Num)
      → HasVersion32 r
      → read_pairs double cbor Record.new (pairs_of double cbor r) ≡ r
  unfolding read_pairs
  read_pairs-pairs_of r e =
      let r1 : SenmlRecord Num = record Record.new { bn = r.bn } in
      let r2 : SenmlRecord Num = record r1 { bt = r.bt } in
      let r3 : SenmlRecord Num = record r2 { bu = r.bu } in
      let r4 : SenmlRecord Num = record r3 { bv = r.bv } in
      let r5 : SenmlRecord Num = record r4 { bs = r.bs } in
      let r6 : SenmlRecord Num = record r5 { bver = r.bver } in
      let r7 : SenmlRecord Num = record r6 { n = r.n } in
      let r8 : SenmlRecord Num = record r7 { u = r.u } in
      let r9 : SenmlRecord Num = record r8 { v = r.v } in
      let r10 : SenmlRecord Num = record r9 { vs = r.vs } in
      let r11 : SenmlRecord Num = record r10 { vb = r.vb } in
      let r12 : SenmlRecord Num = record r11 { vd = r.vd } in
      let r13 : SenmlRecord Num = record r12 { s = r.s } in
      let r14 : SenmlRecord Num = record r13 { t = r.t } in
      reads_bn Record.new r.bn _
      ∙ reads_bt r1 r.bt _
      ∙ reads_bu r2 r.bu _
      ∙ reads_bv r3 r.bv _
      ∙ reads_bs r4 r.bs _
      ∙ reads_bver r5 r.bver _ e
      ∙ reads_n r6 r.n _
      ∙ reads_u r7 r.u _
      ∙ reads_v r8 r.v _
      ∙ reads_vs r9 r.vs _
      ∙ reads_vb r10 r.vb _
      ∙ reads_vd r11 r.vd _
      ∙ reads_s r12 r.s _
      ∙ reads_t r13 r.t _
      ∙ reads_ut r14 r.ut _

  -- A record that is written as a CBOR map is read back from it.
  pub cbor_value_to_record-record_to_cbor_value :
      (r : SenmlRecord Num)
      → HasVersion32 r
      → cbor_value_to_record double cbor (record_to_cbor_value double cbor r) ≡ ok r
  unfolding cbor_value_to_record record_to_cbor_value
  cbor_value_to_record-record_to_cbor_value r e =
      rw (cbor_value_to_record, cbor.as_map-map_of (pairs_of double cbor r))
        (ap ok (read_pairs-pairs_of r e))

  collect-map :
      (rs : List (SenmlRecord Num))
      → All HasVersion32 rs
      → collect (cbor_value_to_record double cbor) (map (record_to_cbor_value double cbor) rs)
        ≡ ok rs
  collect-map [] h = refl
  collect-map (r ∷ rs) (e, h) =
      rw (cbor_value_to_record-record_to_cbor_value r e, collect-map rs h) refl

  value_to_pack-pack_to_value :
      (p : SenmlPack Num)
      → All HasVersion32 p.records
      → value_to_pack double cbor (pack_to_value double cbor p) ≡ ok p
  unfolding value_to_pack pack_to_value
  value_to_pack-pack_to_value p h =
      rw
        (
          value_to_pack,
          cbor.as_array-array (map (record_to_cbor_value double cbor) p.records),
          collect-map p.records h,
        )
        refl

  -- A pack that is encoded is decoded to itself, if ciborium reads back the value that it wrote.
  pub from_cbor-to_cbor :
      (p : SenmlPack Num) (bytes : Wire)
      → All HasVersion32 p.records
      → to_cbor double cbor p ≡ ok bytes
      → ((x : Value)
          → cbor.into_writer x ≡ ok bytes
          → cbor.from_reader_with_recursion_limit 32 bytes ≡ ok x)
      → from_cbor double cbor bytes ≡ ok p
  unfolding from_cbor to_cbor
  from_cbor-to_cbor p bytes h e reads_back =
      rw (reads_back (pack_to_value double cbor p) e) (value_to_pack-pack_to_value p h)

  build-HasVersion32 :
      (b : SenmlBuilder Num)
      → has_base_values b ≡ true
      → All HasVersion32 b.records
      → All HasVersion32 (build b).records
  unfolding build
  build-HasVersion32 b e h = rw e (refl, h)

  -- A pack that a builder made with base values is not decoded with validation: its encoding is
  -- refused as invalid, if ciborium reads back the value that it wrote.
  pub from_cbor_validated-build :
      (b : SenmlBuilder Num) (bytes : Wire)
      → has_base_values b ≡ true
      → All HasVersion32 b.records
      → to_cbor double cbor (build b) ≡ ok bytes
      → ((x : Value)
          → cbor.into_writer x ≡ ok bytes
          → cbor.from_reader_with_recursion_limit 32 bytes ≡ ok x)
      → from_cbor_validated double cbor bytes ≡ err validation_error
  unfolding from_cbor_validated
  from_cbor_validated-build b bytes set h e reads_back =
      rw
        (
          from_cbor-to_cbor (build b) bytes (build-HasVersion32 b set h) e reads_back,
          build-invalid double b set,
        )
        refl
