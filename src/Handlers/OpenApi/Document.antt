-- ===== src/Handlers/OpenApi/Document.antt =====
-- handlers/api_openapi.c: the catalogue of the endpoints and the functions that build the document.
-- cJSON is not part of the repository: its calls, which create and link nodes, are a record over an
-- unknown heap, and a node is what the pointer stands for, NULL included.
use sending_system.Base.{
  String, Bool, true, Option, none, some, List, [], ◌∷◌, Bytes, codes, ◌==◌, if◌then◌else◌,
}

pub record CjsonHeap : Type 1 where
  pub Heap : Type 0
  pub Node : Type 0
  pub create_object : Heap → Node × Heap
  pub create_string : Bytes → Heap → Node × Heap
  pub add_string : Node → Bytes → Bytes → Heap → Heap
  pub add_bool : Node → Bytes → Bool → Heap → Heap
  -- The new child.
  pub add_object : Node → Bytes → Heap → Node × Heap
  pub add_array : Node → Bytes → Heap → Node × Heap
  pub add_item : Node → Bytes → Node → Heap → Heap
  pub add_element : Node → Node → Heap → Heap
  -- `none` is NULL.
  pub parse : Bytes → Heap → Option Node × Heap
  pub get_object_item : Node → Bytes → Heap → Option Node
  pub print_unformatted : Node → Heap → Option Bytes × Heap
  pub delete : Node → Heap → Heap

-- A row of the catalogue; `none` is NULL.
pub record ApiEndpoint : Type 0 where
  pub request_method : Bytes
  pub endpoint_path : Bytes
  pub summary : String
  pub request_content_type : Option String
  pub request_schema_json : Option String
  pub success_schema_reference : Option String

abbrev pub k_endpoints : List ApiEndpoint
k_endpoints =
    record {
      request_method = codes "POST";
      endpoint_path = codes "/api/send";
      summary =
          "Send a text message. If saveToPath is set and non-empty, the server also writes it to SAVE_DIR/<sanitized_name>.";
      request_content_type = some "application/json";
      request_schema_json =
          some
            "{\"type\":\"object\",\"properties\":{\"data\":{\"type\":\"string\",\"minLength\":1},\"saveToPath\":{\"type\":\"string\"}},\"required\":[\"data\"]}";
      success_schema_reference = some "#/components/schemas/MessageResponse";
    }
    ∷ record {
      request_method = codes "POST";
      endpoint_path = codes "/api/upload";
      summary =
          "Upload a file as multipart/form-data. The file is streamed to SAVE_DIR/<sanitized_name>; memory usage is independent of size.";
      request_content_type = some "multipart/form-data";
      request_schema_json =
          some
            "{\"type\":\"object\",\"properties\":{\"file\":{\"type\":\"string\",\"format\":\"binary\"}},\"required\":[\"file\"]}";
      success_schema_reference = some "#/components/schemas/MessageResponse";
    }
    ∷ record {
      request_method = codes "GET";
      endpoint_path = codes "/api/openapi.json";
      summary = "This document: an OpenAPI 3.1 description of the public API.";
      request_content_type = none;
      request_schema_json = none;
      success_schema_reference = none;
    }
    ∷ []

abbrev pub k_error_schema_reference : Option String
k_error_schema_reference = some "#/components/schemas/ErrorResponse"

module _ (C : CjsonHeap) where
  -- The typed body of a response, if there is one.
  unfoldable pub add_content : C.Node → Option String → C.Heap → C.Heap
  add_content response none h = h
  add_content response (some schema_reference) h =
      let (content, h1) = C.add_object response (codes "content") h in
      let (media_type, h2) = C.add_object content (codes "application/json") h1 in
      let (schema, h3) = C.add_object media_type (codes "schema") h2 in
      C.add_string schema (codes "$ref") (codes schema_reference) h3

  unfoldable pub add_response : C.Node → String → String → Option String → C.Heap → C.Heap
  unfolding add_content
  add_response responses status_code description schema_reference h =
      let (response, h1) = C.create_object h in
      let h2 = C.add_string response (codes "description") (codes description) h1 in
      let h3 = add_content response schema_reference h2 in
      C.add_item responses (codes status_code) response h3

  -- The schema of a body; a text that does not parse is left out.
  unfoldable pub add_schema : C.Node → Option String → C.Heap → C.Heap
  add_schema media_type none h = h
  add_schema media_type (some request_schema_json) h =
      let (schema, h1) = C.parse (codes request_schema_json) h in
      elim schema [ none ↦ h1 | some node ↦ C.add_item media_type (codes "schema") node h1 ]

  unfoldable pub add_request_body : C.Node → Option String → Option String → C.Heap → C.Heap
  unfolding add_schema
  add_request_body operation none request_schema_json h = h
  add_request_body operation (some request_content_type) request_schema_json h =
      let (request_body, h1) = C.add_object operation (codes "requestBody") h in
      let h2 = C.add_bool request_body (codes "required") true h1 in
      let (content, h3) = C.add_object request_body (codes "content") h2 in
      let (media_type, h4) = C.add_object content (codes request_content_type) h3 in
      add_schema media_type request_schema_json h4

  unfoldable pub build_operation : ApiEndpoint → C.Heap → C.Node × C.Heap
  unfolding add_request_body add_response
  build_operation endpoint h =
      let (operation, h1) = C.create_object h in
      let h2 = C.add_string operation (codes "summary") (codes endpoint.summary) h1 in
      let h3 =
        add_request_body operation endpoint.request_content_type endpoint.request_schema_json h2 in
      let (responses, h4) = C.add_object operation (codes "responses") h3 in
      let h5 = add_response responses "200" "Success" endpoint.success_schema_reference h4 in
      let h6 = add_response responses "400" "Bad request" k_error_schema_reference h5 in
      let h7 = add_response responses "405" "Method not allowed" k_error_schema_reference h6 in
      let h8 = add_response responses "500" "Internal error" k_error_schema_reference h7 in
      (operation, h8)

  -- A property that is a string with an example.
  unfoldable pub add_property : C.Node → String → String → C.Heap → C.Heap
  add_property properties name example h =
      let (node, h1) = C.add_object properties (codes name) h in
      let h2 = C.add_string node (codes "type") (codes "string") h1 in
      C.add_string node (codes "example") (codes example) h2

  unfoldable pub add_required : C.Node → String → C.Heap → C.Heap
  add_required required name h =
      let (node, h1) = C.create_string (codes name) h in C.add_element required node h1

  -- One of the two schemas, which differ in their name and their examples alone.
  unfoldable pub add_message_schema : C.Node → String → String → String → C.Heap → C.Heap
  unfolding add_property add_required
  add_message_schema schemas name type_example data_example h =
      let (schema, h1) = C.create_object h in
      let h2 = C.add_string schema (codes "type") (codes "object") h1 in
      let (properties, h3) = C.add_object schema (codes "properties") h2 in
      let h4 = add_property properties "type" type_example h3 in
      let h5 = add_property properties "data" data_example h4 in
      let (required, h6) = C.add_array schema (codes "required") h5 in
      let h7 = add_required required "type" h6 in
      let h8 = add_required required "data" h7 in C.add_item schemas (codes name) schema h8

  unfoldable pub add_components : C.Node → C.Heap → C.Heap
  unfolding add_message_schema
  add_components root h =
      let (components, h1) = C.add_object root (codes "components") h in
      let (schemas, h2) = C.add_object components (codes "schemas") h1 in
      let h3 = add_message_schema schemas "MessageResponse" "message" "OK" h2 in
      add_message_schema schemas "ErrorResponse" "error" "Invalid Content-Length" h3

  -- `request_method[0] == 'G'`
  unfoldable pub operation_name : Bytes → Bytes
  operation_name [] = codes "post"
  operation_name (c ∷ method) = if c == b'G' then codes "get" else codes "post"

  -- The object of a path, which may be there already.
  unfoldable pub path_item_of : C.Node → Bytes → C.Heap → C.Node × C.Heap
  path_item_of paths path h = elim (C.get_object_item paths path h) [
    | some path_item ↦ (path_item, h)
    | none ↦ C.add_object paths path h
  ]

  -- The loop over the catalogue.
  unfoldable pub add_paths : C.Node → List ApiEndpoint → C.Heap → C.Heap
  unfolding build_operation operation_name path_item_of
  add_paths paths [] h = h
  add_paths paths (endpoint ∷ rest) h =
      let (path_item, h1) = path_item_of paths endpoint.endpoint_path h in
      let (operation, h2) = build_operation endpoint h1 in
      add_paths paths rest
        (C.add_item path_item (operation_name endpoint.request_method) operation h2)
