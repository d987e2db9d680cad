-- ===== src/Protocol/Listings/Limits.antt =====
-- What the parsers of protocol.rs for file lists let through, whatever a peer packed.
use forever.Prelude.{
  ℕ, zero, suc, ◌+◌, ◌-◌, ◌≤◌, ◌<◌, ◌≡◌, refl, ap, Bool, true, false, List, [], ◌∷◌, length,
  length-append, All, arith, ltb, ltb_false→le,
}
use forever.Protocol.Codes.{
  max_results_per_response, max_folders_per_response, max_files_per_folder, max_folder_files_total,
}
use forever.Protocol.Types.{SearchFile, FolderListing, FolderContentsResponse}
use forever.Protocol.Reader.{usize_range}
use forever.Protocol.Reader.Ensures.{
  Ensures, Anything, Ensures-pure, Ensures-bind, Ensures-skip, Ensures-reject, Ensures-repeat,
  Ensures-repeat_le, Ensures-weaken, Ensures-read_if, Ensures-read_bool, Ensures-remaining,
  Ensures-read_string_lossy, skip_rules, skip_u32, skip_if,
}
use forever.Protocol.Peer.{read_path}
use forever.Protocol.Listings.Entry.{
  Attributes, set_attribute, read_attributes, read_folder_file, read_search_file,
}
use forever.Protocol.Listings.Read.{
  read_search_files, search_response, read_folder, read_folders, folder_contents, saturating_add,
}

pub Ensures-read_path : Ensures Anything read_path
unfolding read_path
Ensures-read_path = search skip_rules

Ensures-read_attributes : (n : ℕ) (found : Attributes) → Ensures Anything (read_attributes n found)
unfolding read_attributes
Ensures-read_attributes zero found = Ensures-pure found tt
Ensures-read_attributes (suc n) found = Ensures-skip _ skip_u32 (λ attribute.
    Ensures-skip _ skip_u32
      (λ value. Ensures-read_attributes n (set_attribute attribute value found)))

pub Ensures-read_folder_file : Ensures Anything read_folder_file
unfolding read_folder_file
Ensures-read_folder_file = search (skip_rules, Ensures-read_path, Ensures-read_attributes) depth 24

Ensures-read_search_file : (b : Bool) → Ensures Anything (read_search_file b)
unfolding read_search_file
Ensures-read_search_file b = search (skip_rules, Ensures-read_folder_file)

abbrev pub FewResults : List SearchFile → Type 0
FewResults files = length files ≤ max_results_per_response

Ensures-read_search_files : (b : Bool) → Ensures FewResults (read_search_files b)
unfolding read_search_files
Ensures-read_search_files b = Ensures-skip _ skip_u32 (λ count.
    Ensures-bind _ (Ensures-reject _ _) (λ _ h.
      Ensures-weaken (λ files counted. omega (arith, counted.0))
        (Ensures-repeat_le max_results_per_response count
          (ltb_false→le count max_results_per_response h) (Ensures-read_search_file b))))

pub Ensures-search_response : Ensures (λ response. length response.files ≤ 40_000) search_response
unfolding search_response
Ensures-search_response = Ensures-skip _ Ensures-read_string_lossy (λ username.
    Ensures-skip _ skip_u32 (λ token. Ensures-bind _ (Ensures-read_search_files false) (λ files few.
      Ensures-skip _ Ensures-read_bool (λ slot_free. Ensures-skip _ skip_u32 (λ average_speed.
        Ensures-skip _ skip_u32 (λ queue_length. Ensures-skip _ Ensures-remaining (λ left.
          Ensures-skip _ (skip_if _ 0 skip_u32) (λ _. Ensures-skip _ Ensures-remaining (λ left.
            Ensures-bind _ (Ensures-read_if _ [] (Ensures-read_search_files true) (omega arith))
              (λ locked few'. Ensures-pure _ (omega (arith, length-append files locked))))))))))))

-- The total of the files of all folders.
abbrev pub folder_files : List FolderListing → ℕ
folder_files [] = 0
folder_files (folder ∷ folders) = length folder.files + folder_files folders

abbrev FolderFits : FolderListing → Type 0
FolderFits folder = length folder.files ≤ max_files_per_folder

-- A count that passed the check of a saturated total.
pub saturated-le :
    (total n maximum : ℕ)
    → maximum < usize_range - 1
    → ltb maximum (saturating_add total n) ≡ false
    → total + n ≤ maximum
saturated-le total n maximum room h = omega (arith, ltb_false→le (saturating_add total n) maximum h)

abbrev Counts : ℕ → FolderListing × ℕ → Type 0
Counts total (folder, total') =
    FolderFits folder × (total' ≡ total + length folder.files) × (total' ≤ max_folder_files_total)

Ensures-read_folder : (total : ℕ) → Ensures (Counts total) (read_folder total)
unfolding read_folder
Ensures-read_folder total = Ensures-skip _ Ensures-read_path (λ directory.
    Ensures-skip _ skip_u32 (λ count. Ensures-bind _ (Ensures-reject _ _) (λ _ few.
      Ensures-bind _ (Ensures-reject _ _) (λ _ h.
        Ensures-bind _ (Ensures-repeat count Ensures-read_folder_file) (λ files counted.
          let fits : total + count ≤ max_folder_files_total =
            saturated-le total count max_folder_files_total (omega arith) h in
          let few' : count ≤ max_files_per_folder = ltb_false→le count max_files_per_folder few in
          let len : length files ≡ count = counted.0 in
          Ensures-pure _ (omega arith, omega arith, omega arith))))))

abbrev FoldersFit : ℕ → ℕ → List FolderListing → Type 0
FoldersFit n total folders =
    (length folders ≡ n)
    × All FolderFits folders
    × (total + folder_files folders ≤ max_folder_files_total)

Ensures-read_folders :
    (n total : ℕ)
    → total ≤ max_folder_files_total
    → Ensures (FoldersFit n total) (read_folders n total)
unfolding read_folders
Ensures-read_folders zero total h = Ensures-pure [] (refl, tt, omega arith)
Ensures-read_folders (suc n) total h =
    Ensures-bind _ (Ensures-read_folder total) (λ (folder, total') counts.
      Ensures-bind _ (Ensures-read_folders n total' counts.2) (λ folders fit.
        Ensures-pure _ (ap suc fit.0, (counts.0, fit.1), omega (arith, fit.2, counts.1))))

pub record ContentsFit (contents : FolderContentsResponse) : Type 0 where
  pub at_most : length contents.folders ≤ max_folders_per_response
  pub per_folder : All FolderFits contents.folders
  pub in_total : folder_files contents.folders ≤ max_folder_files_total

pub Ensures-folder_contents : Ensures ContentsFit folder_contents
unfolding folder_contents
Ensures-folder_contents = Ensures-skip _ skip_u32 (λ token.
    Ensures-skip _ Ensures-read_path (λ requested. Ensures-skip _ skip_u32 (λ count.
      Ensures-bind _ (Ensures-reject _ _) (λ _ h.
        Ensures-bind _ (Ensures-read_folders count 0 (omega arith)) (λ folders fit.
          Ensures-pure _ (record {
            at_most = omega (arith, fit.0, ltb_false→le count max_folders_per_response h);
            per_folder = fit.1;
            in_total = omega (arith, fit.2);
          }))))))
