-- ===== src/Vault2/Content/Header.antt =====
-- `ensure_header` and the reading of the header again: the header is written once and keeps the
-- file id.
use desktop_folder_locker.Common.{
  suc, ◌+◌, ◌≤◌, ◌<◌, ◌≡◌, inl, inr, refl, sym, ap, ◌∙◌, max, length, arith, some, none,
  Option-cases,
}
use desktop_folder_locker.Vault2.Error.{ok}
use desktop_folder_locker.Vault2.Crypto.{IsLawful, Bytes}
use desktop_folder_locker.Vault2.Content.Disk.{
  Disk, slice, slice-eq, patch, patch_inside, padded, write_all_at, write_all_at-eq,
}
use desktop_folder_locker.Vault2.Content.Codec.{Codec, header_len}
use desktop_folder_locker.Vault2.Content.Lengths.{plain_len_small}
use desktop_folder_locker.Vault2.Content.Holds.{Holds, HeaderMatches}
use desktop_folder_locker.Vault2.Content.File.{State, header_of, file_id_len, ensure_header}

length-header_of : (id : Bytes) → length id ≡ 24 → length (header_of id) ≡ 32
length-header_of id h = omega arith

module _ (c : Codec) (L : IsLawful c.crypto) where
  -- The state after the header was written.
  abbrev pub new_header : State → State
  new_header st =
      let id = c.crypto.fill_bytes st.draws file_id_len in
      record st {
        disk = write_all_at st.disk 0 (header_of id);
        id = some id;
        stored_len = max st.stored_len header_len;
        draws = suc st.draws;
      }

  new_header-Holds :
      (st : State) (plain : Disk) → st.id ≡ none → Holds c st plain → Holds c (new_header st) plain
  new_header-Holds st plain e h =
      let id = c.crypto.fill_bytes st.draws file_id_len in
      let short : st.stored_len < header_len = rw e at h.header in
      let empty : plain.len ≡ 0 = sym h.size ∙ plain_len_small c st.stored_len (omega arith) in
      let l : length (header_of id) ≡ 32 = length-header_of id (L.length-fill_bytes st.draws 24) in
      let w : write_all_at st.disk 0 (header_of id) ≡ record {
        len = max st.disk.len (0 + length (header_of id));
        byte = patch (padded st.disk) 0 (header_of id);
      } =
        write_all_at-eq st.disk 0 (header_of id) (omega arith) in
      record {
        stored = rw w (omega (arith, h.stored));
        size = plain_len_small c (max st.stored_len header_len) (omega arith) ∙ sym empty;
        header = (
          omega arith,
          L.length-fill_bytes st.draws 24,
          rw w (
              ap (slice (patch (padded st.disk) 0 (header_of id)) 0) (sym l)
              ∙ slice-eq _ 0 (header_of id)
                  (λ k below. patch_inside (padded st.disk) 0 (header_of id) k below)),
        );
        blocks = λ _ _ index below. absurd (omega arith);
      }

  -- The header is there afterwards, and the plain file is the same.
  pub ensure_header-Holds :
      (st : State) (plain : Disk)
      → Holds c st plain
      → (id : Bytes) × (st' : State) × (ensure_header c st ≡ (ok id, st'))
        × Holds c st' plain
        × (st'.id ≡ some id)
        × (header_len ≤ st'.stored_len)
        × (st'.writable ≡ st.writable)
  unfolding ensure_header
  ensure_header-Holds st plain h = elim (Option-cases st.id) [
    | inl e ↦ (
      c.crypto.fill_bytes st.draws file_id_len,
      new_header st,
      ground arith,
      new_header-Holds st plain e h,
      refl,
      omega arith,
      refl,
    )
    | inr (id, e) ↦
        let there : HeaderMatches c st (some id) = rw e at h.header in
        (id, st, ground arith, h, e, there.0, refl)
  ]
