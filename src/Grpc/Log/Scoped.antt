-- ===== src/Grpc/Log/Scoped.antt =====
-- Reads of logs over gRPC stay within the source or the deployment that the request names.
use reinhardt_cloud.Base.{
  String, true, ◌||◌, Option, none, some, List, All, All-take, All-drop, All-filter, All-map, ◌≡◌,
  ◌≢◌, ◌⊎◌, refl, inl, inr, ap, sym, subst, arith, Bool-cases, eq_iff,
}
use reinhardt_cloud.Base.Result.{ok, bind-eq_ok, ok-injective, ok≢err}
use reinhardt_cloud.Types.Log.{LogEntry, LogFilter}
use reinhardt_cloud.Core.Pagination.{PaginationParams, new}
use reinhardt_cloud.Core.Log.Defs.{LogBuffer, Received, matches_filter, query, list_logs}
use reinhardt_cloud.Core.Log.Filter.{matches_filter_iff, IsSelected, Holds}
use reinhardt_cloud.Grpc.Wire.{Wire, permission_denied}
use reinhardt_cloud.Grpc.Log.Codec.{
  PbLogFilter, JsonText, proto_filter_to_domain, optional_timestamp, domain_entry_to_proto,
}
use reinhardt_cloud.Grpc.Log.Server.{
  PaginationRequest, ListLogsResponse, is_given, params_of, ensure_scoped_read_filter,
  list_response, serve_list_logs,
}
use reinhardt_cloud.Grpc.Log.Pushed.{local_service}

-- the entry's source is not empty, and it is the source or the deployment that is asked for
abbrev pub IsWithin : Option String → Option String → String → Type 0
IsWithin source deployment_id own = (own ≢ "") × ((source ≡ some own) ⊎ (deployment_id ≡ some own))

given-some :
    (o : Option String) (own : String)
    → is_given o ≡ true
    → Holds o (λ text. own ≡ text)
    → (own ≢ "") × (o ≡ some own)
given-some none own g h = absurd (ground (arith, g))
given-some (some text) own g h =
    (λ e. absurd (ground (arith, g, e, h, eq_iff text "")), ap some (sym h))

within :
    (source deployment_id : Option String) (own : String)
    → (is_given source || is_given deployment_id) ≡ true
    → Holds source (λ text. own ≡ text)
    → Holds deployment_id (λ text. own ≡ text)
    → IsWithin source deployment_id own
within source deployment_id own g h k = elim (Bool-cases (is_given source)) [
  | inl yes_source ↦ let (a, b) = given-some source own yes_source h in (a, inl b)
  | inr other ↦ let (a, b) = given-some deployment_id own (rw other at g) k in (a, inr b)
]

ensure-eq_ok :
    (f : LogFilter) (u : Unit)
    → ensure_scoped_read_filter f ≡ ok u
    → (is_given f.source || is_given f.deployment_id) ≡ true
unfolding ensure_scoped_read_filter
ensure-eq_ok f u h = ground (arith, h)

module _ {Json : Type 0} (f : LogFilter) where
  abbrev IsOwn : LogEntry Json → Type 0
  IsOwn e = IsWithin f.source f.deployment_id e.source

  selected-IsOwn :
      (is_given f.source || is_given f.deployment_id) ≡ true
      → (e : LogEntry Json) → matches_filter e f ≡ true
      → IsOwn e
  unfolding IsSelected
  selected-IsOwn g e m =
      let (a, (_, (_, (_, (_, (b, _)))))) = (matches_filter_iff e f).0 m in
      within f.source f.deployment_id e.source g a b

  items-IsOwn :
      (buf : LogBuffer Json) (params : PaginationParams)
      → (is_given f.source || is_given f.deployment_id) ≡ true
      → All IsOwn (list_logs buf f params).items
  unfolding list_logs new query
  items-IsOwn buf params g =
      All-take IsOwn _ _ (All-drop IsOwn _ _ (All-filter IsOwn _ buf.entries (selected-IsOwn g)))

-- the filter that is read asks for what the message asks for
filter-scope :
    (w : Wire) (pb : PbLogFilter) (f : LogFilter)
    → proto_filter_to_domain w (some pb) ≡ ok f
    → (f.source ≡ pb.source) × (f.deployment_id ≡ pb.deployment_id)
unfolding proto_filter_to_domain
filter-scope w pb f h =
    let (since, (a, h')) = bind-eq_ok (optional_timestamp w pb.since) _ f h in
    let (until, (b, h'')) = bind-eq_ok (optional_timestamp w pb.until) _ f h' in
    let same = ok-injective _ f h'' in
    (sym (ap (λ g. g.source) same), sym (ap (λ g. g.deployment_id) same))

-- a request names a source or a deployment, by a text that is not empty
abbrev pub NamesScope : PbLogFilter → Type 0
NamesScope pb =
    (text : String) × ((text ≢ "") × ((pb.source ≡ some text) ⊎ (pb.deployment_id ≡ some text)))

given-names :
    (o : Option String) → is_given o ≡ true → (text : String) × ((text ≢ "") × (o ≡ some text))
given-names none g = absurd (ground (arith, g))
given-names (some text) g = (text, (λ e. absurd (ground (arith, g, e, eq_iff text "")), refl))

names_scope :
    (source deployment_id : Option String)
    → (is_given source || is_given deployment_id) ≡ true
    → (text : String) × ((text ≢ "") × ((source ≡ some text) ⊎ (deployment_id ≡ some text)))
names_scope source deployment_id g = elim (Bool-cases (is_given source)) [
  | inl yes_source ↦
      let (text, (filled, e)) = given-names source yes_source in (text, (filled, inl e))
  | inr other ↦
      let (text, (filled, e)) = given-names deployment_id (rw other at g) in (text, (filled, inr e))
]

module _ (w : Wire) {Json : Type 0} (json : JsonText Json) (received : List (Received Json)) where
  -- what a request may get at all
  abbrev pub IsScoped : Option PbLogFilter → ListLogsResponse → Type 0
  IsScoped none response = ⊥
  IsScoped (some pb) response =
      NamesScope pb × All (λ e. IsWithin pb.source pb.deployment_id e.source) response.entries

  unfiltered-err :
      (buf : LogBuffer Json) (pagination : Option PaginationRequest) (response : ListLogsResponse)
      → ¬ (serve_list_logs w json (local_service received) buf none pagination ≡ ok response)
  unfolding serve_list_logs proto_filter_to_domain ensure_scoped_read_filter
  unfiltered-err buf pagination response h =
      ok≢err response (permission_denied "log reads require source or deployment_id scope") (sym h)

  scoped-entries :
      (buf : LogBuffer Json) (pb : PbLogFilter) (pagination : Option PaginationRequest)
      (response : ListLogsResponse) (f : LogFilter)
      → proto_filter_to_domain w (some pb) ≡ ok f
      → (is_given f.source || is_given f.deployment_id) ≡ true
      → list_response w json (local_service received) (list_logs buf f (params_of pagination))
        ≡ response
      → All (λ e. IsWithin pb.source pb.deployment_id e.source) response.entries
  unfolding list_response domain_entry_to_proto
  scoped-entries buf pb pagination response f a given h =
      let (same_source, same_deployment) = filter-scope w pb f a in
      let own = items-IsOwn f buf (params_of pagination) given in
      let result = list_logs buf f (params_of pagination) in
      let named =
        subst (λ o. All (λ e. IsWithin pb.source o e.source) result.items) same_deployment
          (subst (λ o. All (λ e. IsWithin o f.deployment_id e.source) result.items) same_source
            own) in
      let written : All (λ e. IsWithin pb.source pb.deployment_id e.source)
          (list_response w json (local_service received) result).entries =
        All-map (λ e. IsWithin pb.source pb.deployment_id e.source) (domain_entry_to_proto w json)
          result.items named in
      subst (λ r. All (λ e. IsWithin pb.source pb.deployment_id e.source) r.entries) h written

  -- A request of `list_logs` that gets a response has a filter that names a source or a deployment,
  -- and not by an empty text; whatever entries the response holds, each comes from the source or the
  -- deployment that is named.
  pub serve_list_logs-IsScoped :
      (buf : LogBuffer Json) (pb : Option PbLogFilter) (pagination : Option PaginationRequest)
      (response : ListLogsResponse)
      → serve_list_logs w json (local_service received) buf pb pagination ≡ ok response
      → IsScoped pb response
  unfolding serve_list_logs
  serve_list_logs-IsScoped buf none pagination response h = unfiltered-err buf pagination response h
  serve_list_logs-IsScoped buf (some pb) pagination response h =
      let (f, (a, h')) = bind-eq_ok (proto_filter_to_domain w (some pb)) _ response h in
      let (u, (b, h'')) = bind-eq_ok (ensure_scoped_read_filter f) _ response h' in
      let given = ensure-eq_ok f u b in
      let (same_source, same_deployment) = filter-scope w pb f a in
      (
        names_scope pb.source pb.deployment_id (
            subst (λ o. (is_given pb.source || is_given o) ≡ true) same_deployment
              (subst (λ o. (is_given o || is_given f.deployment_id) ≡ true) same_source given)),
        scoped-entries buf pb pagination response f a given (ok-injective _ response h''),
      )
