-- ===== src/Single/Attempt.antt =====
-- `single_thread_attempt` of src/downloader.rs against an honest server: the file stays a beginning
-- of the resource, and is the whole of it where the attempt succeeds.
use fast_downloader.Prelude.{
  ℕ, ◌≤◌, ◌≡◌, ◌⊎◌, inl, inr, refl, sym, subst, ap, ◌∙◌, Bool, true, false, not, ◌&&◌, Option, none,
  some, List, ◌++◌, length, drop, arith, leb, ltb, ◌==◌, if◌then◌else◌, Bool-cases, ==_iff,
  some-injective,
}
use fast_downloader.Prelude.Text.{Text}
use fast_downloader.Error.{ok, Result-cases}
use fast_downloader.Config.{DownloaderConfig}
use fast_downloader.Http.{FileInfo, if_range_validator}
use fast_downloader.Worker.{partial_content, http_ok}
use fast_downloader.Single.{
  Resume, Reply, or_size, Written, range_total, length_total, decide, transfer, decided,
  is_complete, Visit, existing, single_thread_attempt,
}
use fast_downloader.Single.Prefix.{IsPrefix, Delivers, IsTotal}
use fast_downloader.Single.Answer.{
  IsHonestReply, IsGood, or_size-IsTotal, or_size-known, drop-prefix, prefix_full, transfer-IsGood,
  truncated-IsGood,
}

abbrev IsGoodIf : List ℕ → Option ℕ → Option Written → Type 0
IsGoodIf resource size none = Unit
IsGoodIf resource size (some w) = IsGood resource size w

-- The request is for what follows the file where the attempt resumes, and for the whole otherwise.
abbrev Asks : Bool → List ℕ → Option Resume → Type 0
Asks true file q = (x : Resume) × (q ≡ some x) × (x.from ≡ length file)
Asks false file q = q ≡ none

Asks-resumes :
    (resource : List ℕ) (q : Option Resume) (resp : Reply) (resume : Bool) (file rest : List ℕ)
    → IsHonestReply resource q resp
    → Asks resume file q
    → (resume && (resp.status == partial_content)) ≡ true
    → file ++ rest ≡ resource
    → Delivers rest resp.stream
Asks-resumes resource q resp false file rest honest asks h e = absurd (cc)
Asks-resumes resource q resp true file rest honest (x, asked, from) h e =
    let served = honest.resumes x asked ((==_iff resp.status partial_content).0 h) in
    let same : drop x.from resource ≡ rest =
      ap (λ n. drop n resource) from ∙ ap (drop (length file)) (sym e) ∙ drop-prefix file rest in
    subst (λ z. Delivers z resp.stream) same served

Asks-volunteers :
    (resource : List ℕ) (q : Option Resume) (resp : Reply) (resume : Bool) (file : List ℕ)
    → IsHonestReply resource q resp
    → Asks resume file q
    → (resume && (resp.status == partial_content)) ≡ false
    → (resp.status == partial_content) ≡ true
    → Delivers resource resp.stream
Asks-volunteers resource q resp true file honest asks h e = absurd (cc)
Asks-volunteers resource q resp false file honest asks h e =
    honest.volunteers asks ((==_iff resp.status partial_content).0 e)

decided-IsGood :
    (cfg : DownloaderConfig) (resource : List ℕ) (size : Option ℕ) (resume : Bool)
    (q : Option Resume) (resp : Reply) (file : List ℕ)
    → IsPrefix resource file
    → IsTotal resource size
    → IsHonestReply resource q resp
    → Asks resume file q
    → IsGoodIf resource size (decided cfg resp (decide resume resp file size))
unfolding decide decided transfer
decided-IsGood cfg resource size resume q resp file (rest, p) t honest asks =
    elim (Bool-cases (resume && (resp.status == partial_content))) [
      | inl resumes ↦
          rw (decide, resumes)
            (transfer-IsGood cfg resource size (or_size (range_total resp.content_range) size) resp
              file rest
              (or_size-IsTotal resource (range_total resp.content_range) size honest.range_right t)
              (or_size-known resource (range_total resp.content_range) size honest.range_right)
              (Asks-resumes resource q resp resume file rest honest asks resumes p) p)
      | inr fresh ↦ elim (Bool-cases (resp.status == http_ok)) [
        | inl whole ↦
            rw (decide, fresh, whole)
              (truncated-IsGood cfg resource size (or_size (length_total resp.content_length) size)
                resp file (rest, p)
                (or_size-IsTotal resource (length_total resp.content_length) size
                  honest.length_right t)
                (or_size-known resource (length_total resp.content_length) size honest.length_right)
                (honest.restarts ((==_iff resp.status http_ok).0 whole)))
        | inr other ↦ elim (Bool-cases (resp.status == partial_content)) [
          | inl partial ↦
              rw (decide, fresh, other, partial)
                (truncated-IsGood cfg resource size size resp file (rest, p) t (λ k. k)
                  (Asks-volunteers resource q resp resume file honest asks fresh partial))
          | inr neither ↦ elim (Bool-cases (not (leb 200 resp.status && ltb resp.status 300))) [
            | inl fails ↦
                rw (decide, fresh, other, neither, fails) ((rest, p), λ s known. absurd (cc))
            | inr panics ↦ rw (decide, fresh, other, neither, panics) tt
          ]
        ]
      ]
    ]

is_complete-full :
    (size : Option ℕ) (resource : List ℕ) (n : ℕ)
    → IsTotal resource size
    → is_complete size n ≡ true
    → length resource ≤ n
unfolding is_complete
is_complete-full none resource n t h = absurd (cc)
is_complete-full (some k) resource n (inl e) h = absurd (cc)
is_complete-full (some k) resource n (inr e) h =
    let same : k ≡ length resource = some-injective e in ground arith

existing-cases :
    (v : Visit) (file : List ℕ) → (existing v file ≡ 0) ⊎ (existing v file ≡ length file)
unfolding existing
existing-cases v file = elim (Result-cases v.stat) [
  | inl (u, s) ↦ inr (rw (existing, s) refl)
  | inr (e, s) ↦ inl (rw (existing, s) refl)
]

Asks-if :
    (b : Bool) (n : ℕ) (file : List ℕ) (v : Option Text)
    → (b ≡ true → n ≡ length file)
    → Asks b file (if b then some (record { from = n; if_range = v }) else none)
Asks-if true n file v h = (record { from = n; if_range = v }, refl, h refl)
Asks-if false n file v h = refl

resumes-existing :
    (v : Visit) (file : List ℕ) (b : Bool)
    → (ltb 0 (existing v file) && b) ≡ true
    → existing v file ≡ length file
resumes-existing v file b h = elim (existing-cases v file) [
  | inl nothing ↦ absurd (ground (arith, nothing))
  | inr all ↦ all
]

single_thread_attempt-IsGood :
    (cfg : DownloaderConfig) (info : FileInfo) (resource file : List ℕ) (v : Visit)
    → IsPrefix resource file
    → IsTotal resource info.size
    → ((q : Option Resume) (resp : Reply) → v.send q ≡ ok resp → IsHonestReply resource q resp)
    → IsGoodIf resource info.size (single_thread_attempt cfg info file v)
unfolding single_thread_attempt
single_thread_attempt-IsGood cfg info resource file v p t honest =
    let n = existing v file in
    let resume = ltb 0 n && info.supports_range in
    let q : Option Resume =
      if resume then some (record { from = n; if_range = if_range_validator info }) else none in
    elim (Bool-cases (is_complete info.size n)) [
      | inl full ↦
          rw (single_thread_attempt, full)
            (
              p,
              λ s known. prefix_full resource file p (elim (existing-cases v file) [
                | inl nothing ↦ omega (arith, nothing, is_complete-full info.size resource n t full)
                | inr all ↦ omega (arith, all, is_complete-full info.size resource n t full)
              ]),
            )
      | inr more ↦ elim (Result-cases (v.send q)) [
        | inr (e, sent) ↦ rw (single_thread_attempt, more, sent) (p, λ s known. absurd (cc))
        | inl (resp, sent) ↦
            rw (single_thread_attempt, more, sent)
              (decided-IsGood cfg resource info.size resume q resp file p t (honest q resp sent) (
                Asks-if resume n file (if_range_validator info)
                  (resumes-existing v file info.supports_range)))
      ]
    ]

-- What holds of an attempt that does not panic.
pub single_thread_attempt-result :
    (cfg : DownloaderConfig) (info : FileInfo) (resource file : List ℕ) (v : Visit) (w : Written)
    → IsPrefix resource file
    → IsTotal resource info.size
    → ((q : Option Resume) (resp : Reply) → v.send q ≡ ok resp → IsHonestReply resource q resp)
    → single_thread_attempt cfg info file v ≡ some w
    → IsGood resource info.size w
single_thread_attempt-result cfg info resource file v w p t honest h =
    subst (IsGoodIf resource info.size) h
      (single_thread_attempt-IsGood cfg info resource file v p t honest)
