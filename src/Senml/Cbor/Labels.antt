-- ===== src/Senml/Cbor/Labels.antt =====
-- `cbor_labels` of coapum-senml/src/pack.rs, from RFC 8428, Table 6.
use coapum.Prelude.{ℤ, pos, negsuc}

abbrev pub bn : ℤ
bn = negsuc 1

abbrev pub bt : ℤ
bt = negsuc 2

abbrev pub bu : ℤ
bu = negsuc 3

abbrev pub bv : ℤ
bv = negsuc 4

abbrev pub bs : ℤ
bs = negsuc 5

abbrev pub bver : ℤ
bver = negsuc 0

abbrev pub n : ℤ
n = pos 0

abbrev pub u : ℤ
u = pos 1

abbrev pub v : ℤ
v = pos 2

abbrev pub vs : ℤ
vs = pos 3

abbrev pub vb : ℤ
vb = pos 4

abbrev pub vd : ℤ
vd = pos 8

abbrev pub s : ℤ
s = pos 5

abbrev pub t : ℤ
t = pos 6

abbrev pub ut : ℤ
ut = pos 7
