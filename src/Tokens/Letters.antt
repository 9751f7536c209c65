-- ===== src/Tokens/Letters.antt =====
-- A concrete base64url with signatures, which keeps the laws.
use plant_ops.Refresh.Token.{is_base64url}
use plant_ops.Prelude.{
  ℕ, zero, suc, Text, ◌==◌, eq_refl, true, [], ◌∷◌, all, none, some, ◌≡◌, refl, ap, if◌then◌else◌,
  ◌=?◌,
}
use plant_ops.Tokens.{Member, text, integer, other, Payload, Jose}
use plant_ops.Tokens.Issued.{JoseLaws}

-- A payload is written with letters only, each mark before what it is about.
put_number : ℕ → Text → Text
put_number zero rest = rest
put_number (suc n) rest = b'a' ∷ put_number n rest

put_text : Text → Text → Text
unfolding put_number
put_text [] rest = rest
put_text (c ∷ s) rest = b'c' ∷ put_number c (put_text s rest)

put_member : Member → Text → Text
unfolding put_text
put_member (text s) rest = b't' ∷ put_text s rest
put_member (integer n) rest = b'i' ∷ put_number n rest
put_member other rest = rest

put_payload : Payload → Text
unfolding put_member
put_payload [] = []
put_payload ((key, value) ∷ payload) = b'k' ∷ put_text key (put_member value (put_payload payload))

-- The reader goes from the last letter to the first.
record Reading : Type 0 where
  number : ℕ
  pending : Text
  member : Member
  payload : Payload

abbrev read_letter : ℕ → Reading → Reading
read_letter c r =
    if c =? b'a'
    then record {
      number = suc r.number;
      pending = r.pending;
      member = r.member;
      payload = r.payload;
    }
    else if c =? b'c'
    then record {
      number = 0;
      pending = r.number ∷ r.pending;
      member = r.member;
      payload = r.payload;
    }
    else if c =? b't'
    then record { number = 0; pending = []; member = text r.pending; payload = r.payload }
    else if c =? b'i'
    then record { number = 0; pending = []; member = integer r.number; payload = r.payload }
    else record {
      number = 0;
      pending = [];
      member = other;
      payload = (r.pending, r.member) ∷ r.payload;
    }

abbrev read_letters : Text → Reading
read_letters [] = record { number = 0; pending = []; member = other; payload = [] }
read_letters (c ∷ s) = read_letter c (read_letters s)

read_letters-put_number :
    (n : ℕ) (rest pending : Text) (member : Member) (payload : Payload)
    → read_letters rest
      ≡ record { number = 0; pending = pending; member = member; payload = payload }
    → read_letters (put_number n rest)
      ≡ record { number = n; pending = pending; member = member; payload = payload }
unfolding put_number
read_letters-put_number zero rest pending member payload h = h
read_letters-put_number (suc n) rest pending member payload h =
    rw (read_letters-put_number n rest pending member payload h) refl

read_letters-put_text :
    (s rest : Text) (member : Member) (payload : Payload)
    → read_letters rest ≡ record { number = 0; pending = []; member = member; payload = payload }
    → read_letters (put_text s rest)
      ≡ record { number = 0; pending = s; member = member; payload = payload }
unfolding put_text
read_letters-put_text [] rest member payload h = h
read_letters-put_text (c ∷ s) rest member payload h =
    let ih = read_letters-put_text s rest member payload h in
    rw (read_letters-put_number c (put_text s rest) s member payload ih) refl

read_letters-put_member :
    (value : Member) (rest : Text) (payload : Payload)
    → read_letters rest ≡ record { number = 0; pending = []; member = other; payload = payload }
    → read_letters (put_member value rest)
      ≡ record { number = 0; pending = []; member = value; payload = payload }
unfolding put_member
read_letters-put_member (text s) rest payload h =
    rw (read_letters-put_text s rest other payload h) refl
read_letters-put_member (integer n) rest payload h =
    rw (read_letters-put_number n rest [] other payload h) refl
read_letters-put_member other rest payload h = h

read_letters-put_payload :
    (payload : Payload)
    → read_letters (put_payload payload)
      ≡ record { number = 0; pending = []; member = other; payload = payload }
unfolding put_payload
read_letters-put_payload [] = refl
read_letters-put_payload ((key, value) ∷ payload) =
    let rest = put_payload payload in
    let ih = read_letters-put_member value rest payload (read_letters-put_payload payload) in
    rw (read_letters-put_text key (put_member value rest) value payload ih) refl

all-put_number :
    (n : ℕ) (rest : Text)
    → all is_base64url rest ≡ true
    → all is_base64url (put_number n rest) ≡ true
unfolding put_number is_base64url
all-put_number zero rest h = h
all-put_number (suc n) rest h = all-put_number n rest h

all-put_text :
    (s rest : Text) → all is_base64url rest ≡ true → all is_base64url (put_text s rest) ≡ true
unfolding put_text is_base64url
all-put_text [] rest h = h
all-put_text (c ∷ s) rest h = all-put_number c (put_text s rest) (all-put_text s rest h)

all-put_payload : (payload : Payload) → all is_base64url (put_payload payload) ≡ true
unfolding put_payload put_member is_base64url
all-put_payload [] = refl
all-put_payload ((key, text s) ∷ payload) =
    all-put_text key (b't' ∷ put_text s (put_payload payload))
      (all-put_text s (put_payload payload) (all-put_payload payload))
all-put_payload ((key, integer n) ∷ payload) =
    all-put_text key (b'i' ∷ put_number n (put_payload payload))
      (all-put_number n (put_payload payload) (all-put_payload payload))
all-put_payload ((key, other) ∷ payload) =
    all-put_text key (put_payload payload) (all-put_payload payload)

-- A signature repeats its input behind the key's number.
pub letters : Jose ℕ ℕ
letters = record {
  encode = λ payload. b'z' ∷ put_payload payload;
  decode = λ s. elim s [ [] ↦ none | c ∷ rest ↦ some (read_letters rest).payload ];
  sign = λ input key. b's' ∷ put_number key (put_text input []);
  check = λ input key signature. signature == b's' ∷ put_number key (put_text input []);
}

pub letters-JoseLaws : JoseLaws letters (λ key. key)
unfolding letters is_base64url
letters-JoseLaws = record {
  decode-encode =
      λ payload. ap (λ (r : Reading). some r.payload) (read_letters-put_payload payload);
  encode_safe = λ payload. all-put_payload payload;
  sign_safe = λ input key. all-put_number key (put_text input []) (all-put_text input [] refl);
  check-sign = λ input key. eq_refl (b's' ∷ put_number key (put_text input []));
}
