-- ===== src/Tests/Chunked.antt =====
-- An evbuffer that is a list of chunks.
use libight.Prelude.{◌≡◌, refl, List, [], ◌∷◌, ◌++◌, some, some_inj, length, drop, sym, ap, ◌∙◌}
use mathlib.Core.List.{append-nil, append_assoc}
use libight.Prelude.Bytes.{Bytes}
use libight.Net.Buffer.Libevent.{Evbuffer, flat, find_eol}

pub flat-append : (b c : List Bytes) → flat (b ++ c) ≡ flat b ++ flat c
flat-append [] c = refl
flat-append (x ∷ b) c = ap (◌++◌ x) (flat-append b c) ∙ sym (append_assoc x (flat b) (flat c))

abbrev pub chunked : Evbuffer
chunked = record {
  Buf = List Bytes;
  fresh = [];
  chunks = λ b. b;
  get_length = λ b. length (flat b);
  add = λ b s. some (b ++ s ∷ []);
  add_buffer = λ b s. some (b ++ s, []);
  drain = λ b n. some (drop n (flat b) ∷ []);
  search_eol = λ b. find_eol (flat b);
  fresh_law = refl;
  length_law = λ b. refl;
  add_law = λ b c s h.
      ap flat (sym (some_inj h)) ∙ flat-append b (s ∷ []) ∙ ap (◌++◌ (flat b)) (append-nil s);
  add_buffer_law = λ b s c t h. (
    ap flat (ap (λ z. z.0) (sym (some_inj h))) ∙ flat-append b s,
    ap flat (ap (λ z. z.1) (sym (some_inj h))),
  );
  drain_law = λ b n. (drop n (flat b) ∷ [], refl, append-nil (drop n (flat b)));
  search_eol_law = λ b. refl;
}
