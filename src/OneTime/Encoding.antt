-- ===== src/OneTime/Encoding.antt =====
-- Records as texts: an encoding in place of JSON, on which the stores' theorems can be tried. A
-- record is a list of texts; each character is sent up by one, and 0 ends a text.
use uam_backend.Prelude.{
  Text, List, ℕ, Option, ◌∷◌, ◌≡◌, [], none, ap, suc, ◌≢◌, some, ◌∙◌, refl, zero, arith,
}
use uam_backend.OneTime.Store.{Json}
use uam_backend.OneTime.EmailLink.{
  EmailLinkKind, LinkPayload, verify_email, reset_password, migrate_current, migrate_new,
}
use uam_backend.OneTime.Exchange.{ExchangeRecord}
use uam_backend.OneTime.Pkce.{StateRecord}

enc_text : Text → Text → Text
enc_text [] rest = 0 ∷ rest
enc_text (c ∷ cs) rest = suc c ∷ enc_text cs rest

pub enc : List Text → Text
enc [] = []
enc (t ∷ ts) = enc_text t (enc ts)

cons_char : ℕ → List Text → List Text
cons_char c [] = []
cons_char c (t ∷ ts) = (c ∷ t) ∷ ts

pub dec : Text → List Text
unfolding cons_char
dec [] = []
dec (zero ∷ cs) = [] ∷ dec cs
dec (suc c ∷ cs) = cons_char c (dec cs)

dec-enc_text : (t rest : Text) → dec (enc_text t rest) ≡ t ∷ dec rest
unfolding dec enc_text cons_char
dec-enc_text [] rest = refl
dec-enc_text (c ∷ cs) rest = rw (dec-enc_text cs rest, dec) refl

pub dec-enc : (ts : List Text) → dec (enc ts) ≡ ts
unfolding enc dec
dec-enc [] = refl
dec-enc (t ∷ ts) = rw (dec-enc_text t (enc ts), dec-enc ts) refl

pub enc-ne-nil : (t : Text) (ts : List Text) → enc (t ∷ ts) ≢ []
unfolding enc enc_text
enc-ne-nil [] ts e = cc
enc-ne-nil (c ∷ cs) ts e = cc

abbrev exchange_of : List Text → Option ExchangeRecord
exchange_of (a ∷ r ∷ s ∷ []) =
    some (record { tokens = record { access_token = a; refresh_token = r }; state = s })
exchange_of _ = none

abbrev pub exchange_json : Json ExchangeRecord
exchange_json = record {
  stringify = λ r. enc (r.tokens.access_token ∷ r.tokens.refresh_token ∷ r.state ∷ []);
  parse = λ t. exchange_of (dec t);
  parse-stringify =
      λ r. ap exchange_of (dec-enc (r.tokens.access_token ∷ r.tokens.refresh_token ∷ r.state ∷ []));
  stringify-ne-nil = λ r. enc-ne-nil r.tokens.access_token (r.tokens.refresh_token ∷ r.state ∷ []);
}

abbrev state_of : List Text → Option StateRecord
state_of (c ∷ []) = some (record { code_challenge = c })
state_of _ = none

abbrev pub state_json : Json StateRecord
state_json = record {
  stringify = λ r. enc (r.code_challenge ∷ []);
  parse = λ t. state_of (dec t);
  parse-stringify = λ r. ap state_of (dec-enc (r.code_challenge ∷ []));
  stringify-ne-nil = λ r. enc-ne-nil r.code_challenge [];
}

abbrev kind_code : EmailLinkKind → Text
kind_code verify_email = []
kind_code reset_password = 0 ∷ []
kind_code migrate_current = 0 ∷ 0 ∷ []
kind_code migrate_new = 0 ∷ 0 ∷ 0 ∷ []

abbrev kind_of : Text → EmailLinkKind
kind_of [] = verify_email
kind_of (a ∷ []) = reset_password
kind_of (a ∷ b ∷ []) = migrate_current
kind_of _ = migrate_new

abbrev flat : List (Text × Text) → List Text
flat [] = []
flat ((k, v) ∷ kvs) = k ∷ v ∷ flat kvs

abbrev meta_texts : Option (List (Text × Text)) → List Text
meta_texts none = []
meta_texts (some kvs) = [] ∷ flat kvs

abbrev unflat : List Text → List (Text × Text)
unflat (k ∷ v ∷ ts) = (k, v) ∷ unflat ts
unflat _ = []

abbrev meta_of : List Text → Option (List (Text × Text))
meta_of [] = none
meta_of (t ∷ ts) = some (unflat ts)

unflat-flat : (kvs : List (Text × Text)) → unflat (flat kvs) ≡ kvs
unflat-flat [] = refl
unflat-flat ((k, v) ∷ kvs) = ap (λ rest. (k, v) ∷ rest) (unflat-flat kvs)

meta_of-texts : (m : Option (List (Text × Text))) → meta_of (meta_texts m) ≡ m
meta_of-texts none = refl
meta_of-texts (some kvs) = ap some (unflat-flat kvs)

kind_of-code : (k : EmailLinkKind) → kind_of (kind_code k) ≡ k
kind_of-code verify_email = refl
kind_of-code reset_password = refl
kind_of-code migrate_current = refl
kind_of-code migrate_new = refl

abbrev link_of : List Text → Option LinkPayload
link_of (k ∷ s ∷ m) = some (record { kind = kind_of k; secret = s; meta = meta_of m })
link_of _ = none

abbrev link_texts : LinkPayload → List Text
link_texts p = kind_code p.kind ∷ p.secret ∷ meta_texts p.meta

pub link_of-texts : (p : LinkPayload) → link_of (link_texts p) ≡ some p
link_of-texts p = ground (arith, kind_of-code p.kind, meta_of-texts p.meta)

abbrev pub link_json : Json LinkPayload
link_json = record {
  stringify = λ p. enc (link_texts p);
  parse = λ t. link_of (dec t);
  parse-stringify = λ p. ap link_of (dec-enc (link_texts p)) ∙ link_of-texts p;
  stringify-ne-nil = λ p. enc-ne-nil (kind_code p.kind) (p.secret ∷ meta_texts p.meta);
}
