-- ===== src/Chunk/Receive/Layout.antt =====
-- What the message header of a chunk comes to behind the guard of `parseMessage`, by its format.
use lssvc.Common.{
  List, [], arith, false, if◌then◌else◌, length, refl, some, suc, zero, ℕ, ◌%◌, ◌*◌, ◌++◌, ◌+◌, ◌<◌,
  ◌==◌, ◌^◌, ◌∷◌, ◌≡◌, ◌≤◌,
}
use lssvc.Bytes.{read_uint24, read_uint8}
use lssvc.Chunk.{MsgHeader, load_uint32}
use lssvc.Chunk.Receive.{Fields, announced_len, header_missing, read_fields, with_ext}

pub record Layout (chunk_size fmt : ℕ) (prev : MsgHeader) (xs : List ℕ) : Type 0 where
  pub fields : ℕ → MsgHeader → Fields
  pub rest : List ℕ
  pub len : ℕ
  pub present : (ys : List ℕ) → header_missing fmt (length (xs ++ ys)) ≡ false
  pub announced : (ys : List ℕ) → announced_len chunk_size fmt prev (xs ++ ys) ≡ some len
  pub reads :
      (delta : ℕ) (h : MsgHeader) (ys : List ℕ)
      → read_fields fmt prev delta h (xs ++ ys) ≡ some (fields delta h, rest ++ ys)
  pub shorter : length rest ≤ length xs
  pub again :
      (delta : ℕ) (h : MsgHeader)
      → fields (fields delta h).delta (fields delta h).header ≡ fields delta h
  pub again_ext :
      (delta : ℕ) (h : MsgHeader) (ts : ℕ)
      → let f = with_ext fmt prev (fields delta h) ts in
        (with_ext fmt prev (fields f.delta f.header) ts ≡ f)
        × ((fields f.delta f.header).ts ≡ (fields delta h).ts)

layout0 :
    (chunk_size : ℕ) (prev : MsgHeader) (xs : List ℕ) → 11 ≤ length xs → Layout chunk_size 0 prev xs
unfolding read_fields read_uint24 read_uint8 load_uint32
layout0 chunk_size prev (a ∷ b ∷ c ∷ d ∷ e ∷ f ∷ g ∷ i ∷ j ∷ k ∷ l ∷ rest) _ = record {
  fields = λ delta h. record {
    header = record h {
      timestamp = a * 65536 + b * 256 + c;
      msg_len = d * 65536 + e * 256 + f;
      msg_type = g;
      msg_sid = i + j * 256 + k * 65536 + l * 16777216;
    };
    delta = 0;
    ts = a * 65536 + b * 256 + c;
  };
  rest = rest;
  len = d * 65536 + e * 256 + f;
  present = λ ys. ground arith;
  announced = λ ys. refl;
  reads = λ delta h ys. refl;
  shorter = omega arith;
  again = λ delta h. refl;
  again_ext = λ delta h ts. (refl, refl);
}
layout0 chunk_size prev _ few = absurd (omega arith)

layout1 :
    (chunk_size : ℕ) (prev : MsgHeader) (xs : List ℕ) → 7 ≤ length xs → Layout chunk_size 1 prev xs
unfolding read_fields read_uint24 read_uint8
layout1 chunk_size prev (a ∷ b ∷ c ∷ d ∷ e ∷ f ∷ g ∷ rest) _ = record {
  fields = λ delta h. record {
    header = record h {
      timestamp = (a * 65536 + b * 256 + c + prev.timestamp) % 2 ^ 32;
      msg_len = d * 65536 + e * 256 + f;
      msg_type = g;
      msg_sid = prev.msg_sid;
    };
    delta = a * 65536 + b * 256 + c;
    ts = a * 65536 + b * 256 + c;
  };
  rest = rest;
  len = d * 65536 + e * 256 + f;
  present = λ ys. ground arith;
  announced = λ ys. refl;
  reads = λ delta h ys. refl;
  shorter = omega arith;
  again = λ delta h. refl;
  again_ext = λ delta h ts. (refl, refl);
}
layout1 chunk_size prev _ few = absurd (omega arith)

layout2 :
    (chunk_size : ℕ) (prev : MsgHeader) (xs : List ℕ) → 3 ≤ length xs → Layout chunk_size 2 prev xs
unfolding read_fields read_uint24
layout2 chunk_size prev (a ∷ b ∷ c ∷ rest) _ = record {
  fields = λ delta h. record {
    header = record h {
      timestamp = (a * 65536 + b * 256 + c + prev.timestamp) % 2 ^ 32;
      msg_len = prev.msg_len;
      msg_type = prev.msg_type;
      msg_sid = prev.msg_sid;
    };
    delta = a * 65536 + b * 256 + c;
    ts = a * 65536 + b * 256 + c;
  };
  rest = rest;
  len = if prev.msg_len == 0 then chunk_size else prev.msg_len;
  present = λ ys. ground arith;
  announced = λ ys. refl;
  reads = λ delta h ys. refl;
  shorter = omega arith;
  again = λ delta h. refl;
  again_ext = λ delta h ts. (refl, refl);
}
layout2 chunk_size prev _ few = absurd (omega arith)

abbrev fields3 : MsgHeader → ℕ → MsgHeader → Fields
fields3 prev delta h = record {
  header = record h {
    timestamp = if h.timestamp == 0 then (delta + prev.timestamp) % 2 ^ 32 else h.timestamp;
    msg_len = prev.msg_len;
    msg_type = prev.msg_type;
    msg_sid = prev.msg_sid;
  };
  delta = delta;
  ts = 0;
}

layout3 :
    (chunk_size : ℕ) (prev : MsgHeader) (xs : List ℕ) → 1 ≤ length xs → Layout chunk_size 3 prev xs
unfolding read_fields
layout3 chunk_size prev (a ∷ rest) _ = record {
  fields = fields3 prev;
  rest = a ∷ rest;
  len = if prev.msg_len == 0 then chunk_size else prev.msg_len;
  present = λ ys. ground arith;
  announced = λ ys. refl;
  reads = λ delta h ys. refl;
  shorter = omega arith;
  again = λ delta h. ground arith;
  again_ext = λ delta h ts. (ground arith, refl);
}
layout3 chunk_size prev [] few = absurd (omega arith)

pub layout :
    (chunk_size fmt : ℕ) (prev : MsgHeader) (xs : List ℕ)
    → fmt < 4
    → header_missing fmt (length xs) ≡ false
    → Layout chunk_size fmt prev xs
layout chunk_size zero prev xs h e = layout0 chunk_size prev xs (ground arith)
layout chunk_size (suc zero) prev xs h e = layout1 chunk_size prev xs (ground arith)
layout chunk_size (suc (suc zero)) prev xs h e = layout2 chunk_size prev xs (ground arith)
layout chunk_size (suc (suc (suc zero))) prev xs h e = layout3 chunk_size prev xs (ground arith)
layout chunk_size (suc (suc (suc (suc n)))) prev xs h e = absurd (omega arith)
