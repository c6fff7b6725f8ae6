-- ===== src/Jpeg/Fed.antt =====
-- What the decoders of `T6JpegStreamerClient` (src/t6_kvm/kvmd_adapter.py) are fed.
use nanopc_t6_kvm.Base.{
  ℕ, ◌≡◌, inl, inr, refl, sym, ap, ◌∙◌, arith, true, ◌||◌, not, [], ◌∷◌, Option, none, some, ==_iff,
  Bool-cases,
}
use nanopc_t6_kvm.Protocol.{Frame, is_key}
use nanopc_t6_kvm.Gate.Decodable.{
  CanShow, IsDecodable, IsDecodable-append, after, last_after, last_after-append,
}
use nanopc_t6_kvm.Jpeg.{Receiver, same_epoch, choose_decoder, feed}

-- A receiver whose decoder was fed what can be decoded, up to the last frame taken.
pub record IsFed (last : Option Frame) (r : Receiver) : Type 0 where
  pub decodable : IsDecodable none r.fed
  pub last_fed : last_after none r.fed ≡ last
  pub epoch : (p : Frame) → last ≡ some p → r.epoch ≡ some p.epoch

after-eq : (f p : Frame) → after f ≡ some p → p.epoch ≡ f.epoch
after-eq f p h = ground arith

-- A frame behind which a decoder of its own is made can be decoded first.
CanShow-none :
    (last : Option Frame) (r : Receiver) (f : Frame)
    → IsFed last r
    → CanShow last f
    → not (same_epoch r.epoch f.epoch) || is_key f ≡ true
    → CanShow none f
CanShow-none last r f v (inl status) new = inl status
CanShow-none last r f v (inr (inl key)) new = inr (inl key)
CanShow-none none r f v (inr (inr follows)) new = absurd follows
CanShow-none (some p) r f v (inr (inr follows)) new =
    let same : same_epoch r.epoch f.epoch ≡ true =
      rw (v.epoch p refl) ((==_iff p.epoch f.epoch).1 (sym follows.epoch)) in
    inr (inl (rw same at new))

pub choose_decoder-IsFed :
    (last : Option Frame) (r : Receiver) (f : Frame)
    → IsFed last r
    → CanShow last f
    → IsFed (after f) (feed (choose_decoder r f) f)
choose_decoder-IsFed last r f v show =
    elim (Bool-cases (not (same_epoch r.epoch f.epoch) || is_key f)) [
      | inl new ↦ rw new (record {
        decodable = (CanShow-none last r f v show new, tt);
        last_fed = refl;
        epoch = λ p h. ap some (sym (after-eq f p h));
      })
      | inr old ↦ rw old (record {
        decodable = IsDecodable-append none r.fed (f ∷ []) v.decodable (rw (v.last_fed) (show, tt));
        last_fed = last_after-append none r.fed (f ∷ []);
        epoch = λ p h. kept r.epoch p h (ground (arith, old));
      })
    ]
  where
    kept :
        (e : Option ℕ) (p : Frame)
        → after f ≡ some p
        → same_epoch e f.epoch ≡ true
        → e ≡ some p.epoch
    kept none p h same = cc
    kept (some e) p h same = ap some ((==_iff e f.epoch).0 same ∙ sym (after-eq f p h))
