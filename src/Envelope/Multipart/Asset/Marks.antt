-- ===== src/Envelope/Multipart/Asset/Marks.antt =====
-- experiments/client-keyed-objects/client/src/upload.ts: when an asset is marked complete.
use supabase_lab.Common.{
  ℕ, ◌≡◌, refl, ◌∙◌, ◌⊎◌, inl, inr, Option, none, some, List, [], ◌∷◌, ◌++◌, length, ◌==◌, map,
  String, str_eq, Bool, true, false, if◌then◌else◌,
}
use mathlib.Core.List.{append_assoc}
use supabase_lab.Envelope.{Bytes, CkErrorCode, Result, ok, failed, Crypto, import_dek, sha256_hex}
use supabase_lab.Envelope.Upload.{AssetRow}
use supabase_lab.Envelope.Multipart.{Service, PartsResult, list_parts, run_parts}
use supabase_lab.Envelope.Multipart.Steps.{
  Text, Patch, Call, Outcome, returned, thrown, running, Program, pure, raise, of_result, request,
  followed, ◌>>=◌,
}
use supabase_lab.Envelope.Multipart.Asset.{
  Transfer, in_parts, by_tus, UploadResult, TusRequest, records, stores_url, as_call, TusClient,
  transported, is_multipart, finish, store, store_tus, upload_under, upload, unwrapped, resume,
}
use supabase_lab.Envelope.Multipart.Asset.Quiet.{
  marks, Quiet, IsQuiet, Quiet-nil, Quiet-trans, Quiet-marks, of_result-IsQuiet, request-IsQuiet,
  followed-IsQuiet, bind-IsQuiet, if-IsQuiet,
}
use supabase_lab.Envelope.Multipart.Asset.Silent.{list_parts-IsQuiet, run_parts-IsQuiet}

-- the requests of `runTus` mark nothing
marks-as_call : (rs : List TusRequest) → marks (map as_call rs) ≡ []
marks-as_call [] = refl
marks-as_call (records rows ∷ rs) = marks-as_call rs
marks-as_call (stores_url url ∷ rs) = marks-as_call rs

transported-IsQuiet :
    (client : List Call → Outcome (Option ℕ) × List TusRequest) → IsQuiet (transported client)
unfolding transported
transported-IsQuiet client log = (map as_call (client log).1, refl, marks-as_call (client log).1)

module _ {Key : Type 0} (service : Service) (crypto : Crypto Key) (md5 : Option (Bytes → Text))
    (tus : TusClient Key) (source : Bytes) (part_chunks rounds : ℕ)
    (P : Transfer → AssetRow → Type 0) where
  -- what was transferred from the requests `begun` on, to the requests `ended`
  abbrev pub IsStored : Key → AssetRow → List (ℕ × Text) → List Call → List Call → Transfer → Type 0
  IsStored key row uploaded begun ended (in_parts r) =
      run_parts service crypto md5 key row source part_chunks uploaded rounds begun
      ≡ (returned r, ended)
  IsStored key row uploaded begun ended (by_tus offset) =
      transported (tus row key source) begun ≡ (returned offset, ended)

  -- the requests from `log` to `later` mark the asset once, right after it was transferred
  pub record IsMarked (log later : List Call) : Type 0 where
    pub row : AssetRow
    pub key : Key
    pub uploaded : List (ℕ × Text)
    pub begun : List Call
    pub ended : List Call
    pub rest : List Call
    pub result : Transfer
    pub of_row : P result row
    pub stored : IsStored key row uploaded begun ended result
    pub marked :
        later ≡ ended ++ Call.patch_asset (Patch.complete_with (sha256_hex crypto source)) ∷ rest
    pub not_before : marks ended ≡ marks log
    pub not_after : marks rest ≡ []

  -- nothing is marked, or the asset is
  abbrev pub MarksLast : List Call → List Call → Type 0
  MarksLast log later = (marks later ≡ marks log) ⊎ IsMarked log later

  finish-calls :
      (a : AssetRow) (r : Transfer) (log : List Call)
      → Quiet
          (log ++ Call.patch_asset (Patch.complete_with (sha256_hex crypto source)) ∷ [])
          (finish service crypto md5 tus source part_chunks rounds a r log).1
  unfolding finish
  finish-calls a r log =
      let c = Call.patch_asset (Patch.complete_with (sha256_hex crypto source)) in
      let result : ℕ → UploadResult = λ n. record {
        plaintext_sha256 = sha256_hex crypto source;
        ciphertext_size = a.ciphertext_size;
        chunk_rows = n;
        transfer = r;
      } in
      let counted : Program UploadResult =
        request service.count_rows Call.count_rows >>= λ n. pure (result n) in
      Quiet-trans (log ++ c ∷ []) (request service.patch_asset c log).1 _
        (of_result-IsQuiet (service.patch_asset (log ++ c ∷ [])) (log ++ c ∷ []))
        (followed-IsQuiet (request service.patch_asset c log) (λ _. counted)
          (λ _.
            bind-IsQuiet (request service.count_rows Call.count_rows) (λ n. pure (result n))
              (request-IsQuiet service.count_rows Call.count_rows refl) (λ n l. Quiet-nil l)))

  -- what follows a transfer that returned
  marked-MarksLast :
      (a : AssetRow) (r : Transfer) (p : P r a) (key : Key) (uploaded : List (ℕ × Text))
      (log ended : List Call)
      → IsStored key a uploaded log ended r
      → Quiet log ended
      → MarksLast log (finish service crypto md5 tus source part_chunks rounds a r ended).1
  marked-MarksLast a r p key uploaded log ended same q =
      let c = Call.patch_asset (Patch.complete_with (sha256_hex crypto source)) in
      let (rest, e, quiet) = finish-calls a r ended in
      inr (record {
        row = a;
        key = key;
        uploaded = uploaded;
        begun = log;
        ended = ended;
        rest = rest;
        result = r;
        of_row = p;
        stored = same;
        marked = e ∙ append_assoc ended (c ∷ []) rest;
        not_before = Quiet-marks log ended q;
        not_after = quiet;
      })

  parts-MarksLast :
      (a : AssetRow) (p : (r : PartsResult) → P (in_parts r) a) (key : Key)
      (uploaded : List (ℕ × Text)) (log : List Call) (o : Outcome PartsResult × List Call)
      → run_parts service crypto md5 key a source part_chunks uploaded rounds log ≡ o
      → Quiet log o.1
      → MarksLast log
          (followed o
            (λ r. finish service crypto md5 tus source part_chunks rounds a (in_parts r))).1
  parts-MarksLast a p key uploaded log (thrown e, ended) same q = inl (Quiet-marks log ended q)
  parts-MarksLast a p key uploaded log (running, ended) same q = inl (Quiet-marks log ended q)
  parts-MarksLast a p key uploaded log (returned r, ended) same q =
      marked-MarksLast a (in_parts r) (p r) key uploaded log ended same q

  tus-MarksLast :
      (a : AssetRow) (p : (n : Option ℕ) → P (by_tus n) a) (key : Key) (log : List Call)
      (o : Outcome (Option ℕ) × List Call)
      → transported (tus a key source) log ≡ o
      → Quiet log o.1
      → MarksLast log
          (followed o (λ n. finish service crypto md5 tus source part_chunks rounds a (by_tus n))).1
  tus-MarksLast a p key log (thrown e, ended) same q = inl (Quiet-marks log ended q)
  tus-MarksLast a p key log (running, ended) same q = inl (Quiet-marks log ended q)
  tus-MarksLast a p key log (returned n, ended) same q =
      marked-MarksLast a (by_tus n) (p n) key [] log ended same q

  -- code that marks nothing may come first
  MarksLast-after :
      (log mid later : List Call) → Quiet log mid → MarksLast mid later → MarksLast log later
  MarksLast-after log mid later q (inl same) = inl (same ∙ Quiet-marks log mid q)
  MarksLast-after log mid later q (inr m) = inr (record {
    row = m.row;
    key = m.key;
    uploaded = m.uploaded;
    begun = m.begun;
    ended = m.ended;
    rest = m.rest;
    result = m.result;
    of_row = m.of_row;
    stored = m.stored;
    marked = m.marked;
    not_before = m.not_before ∙ Quiet-marks log mid q;
    not_after = m.not_after;
  })

  abbrev EndsMarked : Program UploadResult → Type 0
  EndsMarked m = (log : List Call) → MarksLast log (m log).1

  followed-EndsMarked :
      {A : Type 0} (o : Outcome A × List Call) (f : A → Program UploadResult)
      → ((a : A) → EndsMarked (f a))
      → MarksLast o.1 (followed o f).1
  followed-EndsMarked (returned a, log) f h = h a log
  followed-EndsMarked (thrown e, log) f h = inl refl
  followed-EndsMarked (running, log) f h = inl refl

  bind-EndsMarked :
      {A : Type 0} (m : Program A) (f : A → Program UploadResult)
      → IsQuiet m
      → ((a : A) → EndsMarked (f a))
      → EndsMarked (m >>= f)
  bind-EndsMarked m f q h log =
      MarksLast-after log (m log).1 _ (q log) (followed-EndsMarked (m log) f h)

  store-EndsMarked :
      (a : AssetRow) (p : (r : PartsResult) → P (in_parts r) a) (dek : Bytes)
      (uploaded : List (ℕ × Text))
      → EndsMarked (store service crypto md5 tus source part_chunks rounds a dek uploaded)
  unfolding store
  store-EndsMarked a p dek uploaded =
      bind-EndsMarked (of_result (import_dek crypto dek))
        (λ key. run_parts service crypto md5 key a source part_chunks uploaded rounds >>= λ r.
          finish service crypto md5 tus source part_chunks rounds a (in_parts r))
        (of_result-IsQuiet (import_dek crypto dek))
        (λ key log.
          parts-MarksLast a p key uploaded log
            (run_parts service crypto md5 key a source part_chunks uploaded rounds log) refl
            (run_parts-IsQuiet service crypto md5 source part_chunks key a uploaded rounds log))

  store_tus-EndsMarked :
      (a : AssetRow) (p : (n : Option ℕ) → P (by_tus n) a) (dek : Bytes)
      → EndsMarked (store_tus service crypto md5 tus source part_chunks rounds a dek)
  unfolding store_tus
  store_tus-EndsMarked a p dek =
      bind-EndsMarked (of_result (import_dek crypto dek))
        (λ key. transported (tus a key source) >>= λ n.
          finish service crypto md5 tus source part_chunks rounds a (by_tus n))
        (of_result-IsQuiet (import_dek crypto dek))
        (λ key log.
          tus-MarksLast a p key log (transported (tus a key source) log) refl
            (transported-IsQuiet (tus a key source) log))

  upload_under-EndsMarked :
      (a : AssetRow) (p : (r : PartsResult) → P (in_parts r) a) (dek : Bytes) (id : Option Text)
      → EndsMarked (upload_under service crypto md5 tus source part_chunks rounds a dek id)
  unfolding upload_under
  upload_under-EndsMarked a p dek none = λ log. inl refl
  upload_under-EndsMarked a p dek (some []) = λ log. inl refl
  upload_under-EndsMarked a p dek (some (c ∷ cs)) =
      let patch = Call.patch_asset (Patch.upload_id (c ∷ cs)) in
      bind-EndsMarked (request service.patch_asset patch)
        (λ _. store service crypto md5 tus source part_chunks rounds a dek [])
        (request-IsQuiet service.patch_asset patch refl) (λ _. store-EndsMarked a p dek [])

  unwrapped-IsQuiet :
      (a : AssetRow) (dek : Result Bytes)
      → IsQuiet (unwrapped service crypto md5 tus source part_chunks rounds a dek)
  unfolding unwrapped
  unwrapped-IsQuiet a dek =
      if-IsQuiet (a.plaintext_size == length source) (of_result dek)
        (raise CkErrorCode.integrity_error) (of_result-IsQuiet dek) (λ log. Quiet-nil log)

  from_key : AssetRow → Bytes → Program UploadResult
  from_key a key_bytes =
      list_parts service rounds
      >>= store service crypto md5 tus source part_chunks rounds a key_bytes

  if-EndsMarked :
      (b : Bool) (m n : Program UploadResult)
      → (b ≡ true → EndsMarked m)
      → (b ≡ false → EndsMarked n)
      → EndsMarked (if b then m else n)
  if-EndsMarked true m n h k = h refl
  if-EndsMarked false m n h k = k refl

  created-EndsMarked :
      (method : String) (created : Result (AssetRow × Bytes))
      → ((c : AssetRow × Bytes)
          → created ≡ ok c
          → (r : PartsResult) → str_eq method "s3-multipart" ≡ true
          → P (in_parts r) c.0)
      → ((c : AssetRow × Bytes)
          → created ≡ ok c
          → (n : Option ℕ) → str_eq method "s3-multipart" ≡ false
          → P (by_tus n) c.0)
      → EndsMarked (upload service crypto md5 tus source part_chunks rounds method created)
  unfolding upload
  created-EndsMarked method (failed e) h k = λ log. inl refl
  created-EndsMarked method (ok c) h k =
      if-EndsMarked (str_eq method "s3-multipart")
        (request service.create_upload Call.create_upload
          >>= upload_under service crypto md5 tus source part_chunks rounds c.0 c.1)
        (store_tus service crypto md5 tus source part_chunks rounds c.0 c.1)
        (λ is.
          bind-EndsMarked (request service.create_upload Call.create_upload)
            (upload_under service crypto md5 tus source part_chunks rounds c.0 c.1)
            (request-IsQuiet service.create_upload Call.create_upload refl)
            (upload_under-EndsMarked c.0 (λ r. h c refl r is) c.1))
        (λ is. store_tus-EndsMarked c.0 (λ n. k c refl n is) c.1)

  row-EndsMarked :
      (row : Result AssetRow) (dek : Result Bytes)
      → ((a : AssetRow)
          → row ≡ ok a
          → (r : PartsResult) → is_multipart a.upload_method ≡ true
          → P (in_parts r) a)
      → ((a : AssetRow)
          → row ≡ ok a
          → (n : Option ℕ) → is_multipart a.upload_method ≡ false
          → P (by_tus n) a)
      → EndsMarked (resume service crypto md5 tus source part_chunks rounds row dek)
  unfolding resume from_key
  row-EndsMarked (failed e) dek h k = λ log. inl refl
  row-EndsMarked (ok a) dek h k =
      bind-EndsMarked (unwrapped service crypto md5 tus source part_chunks rounds a dek)
        (λ key_bytes.
          if is_multipart a.upload_method
          then from_key a key_bytes
          else store_tus service crypto md5 tus source part_chunks rounds a key_bytes)
        (unwrapped-IsQuiet a dek)
        (λ key_bytes.
          if-EndsMarked (is_multipart a.upload_method) (from_key a key_bytes)
            (store_tus service crypto md5 tus source part_chunks rounds a key_bytes)
            (λ is.
              bind-EndsMarked (list_parts service rounds)
                (store service crypto md5 tus source part_chunks rounds a key_bytes)
                (list_parts-IsQuiet service rounds)
                (store-EndsMarked a (λ r. h a refl r is) key_bytes))
            (λ is. store_tus-EndsMarked a (λ n. k a refl n is) key_bytes))

module _ {Key : Type 0} (service : Service) (crypto : Crypto Key) (md5 : Option (Bytes → Text))
    (tus : TusClient Key) (source : Bytes) (part_chunks rounds : ℕ) where
  -- a transfer by the method: in parts, if that is "s3-multipart"
  abbrev pub IsBy : Option String → Transfer → Type 0
  IsBy method (in_parts r) = is_multipart method ≡ true
  IsBy method (by_tus n) = is_multipart method ≡ false

  -- the row that was created, and the one that the catalogue gave
  abbrev pub IsCreated : String → Result (AssetRow × Bytes) → Transfer → AssetRow → Type 0
  IsCreated method created t a = (dek : Bytes) × (created ≡ ok (a, dek)) × IsBy (some method) t

  abbrev pub IsGiven : Result AssetRow → Transfer → AssetRow → Type 0
  IsGiven row t a = (row ≡ ok a) × IsBy a.upload_method t

  -- Whatever the catalogue, the storage, the key service and the client of the tus protocol answer,
  -- an upload and a resumption either do not mark the asset complete, or mark it once, with the
  -- digest of the source, and right after a transfer has returned for the row that was created or
  -- that the catalogue gave: that of `runParts` if the method is "s3-multipart", which is the
  -- caller's for an upload and the row's for a resumption, and that of `runTus` else.
  pub upload-resume-MarksLast :
      (method : String) (created : Result (AssetRow × Bytes)) (row : Result AssetRow)
      (dek : Result Bytes) (log : List Call)
      → MarksLast service crypto md5 tus source part_chunks rounds
          (IsCreated method created)
          log
          (upload service crypto md5 tus source part_chunks rounds method created log).1
        × MarksLast service crypto md5 tus source part_chunks rounds
            (IsGiven row)
            log
            (resume service crypto md5 tus source part_chunks rounds row dek log).1
  unfolding is_multipart
  upload-resume-MarksLast method created row dek log = (
    created-EndsMarked service crypto md5 tus source part_chunks rounds (IsCreated method created)
        method created (λ c e r is. (c.1, e, is)) (λ c e n is. (c.1, e, is)) log,
    row-EndsMarked service crypto md5 tus source part_chunks rounds (IsGiven row) row dek
        (λ a e r is. (e, is)) (λ a e n is. (e, is)) log,
  )
