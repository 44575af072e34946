-- ===== src/Request/Record.antt =====
-- struct HttpRequest of include/http/HttpRequest.h
use simple_tcp.Prelude.{Bool, false, List, [], ℤ, negsuc}
use simple_tcp.Strings.{Text}
use simple_tcp.Http.Common.{
  RequestType, unknown_type, Version, unknown_version, ContentType, unknown_content, EncodingType,
}
use simple_tcp.Http.{Headers}

pub record HttpRequest : Type 0 where
  pub url : Text
  pub host : Text
  pub query_parameters : Text
  pub request_type : RequestType
  pub version : Version
  pub content_type : ContentType
  pub content_length : ℤ
  pub ranges : List (ℤ × ℤ)
  pub keep_alive : Bool
  pub accept_encodings : List EncodingType
  pub headers : Headers
  pub body : Text
  pub raw_request : Text
  pub request_size : ℤ

-- The constructor.
abbrev pub fresh : HttpRequest
fresh = record {
  url = [];
  host = [];
  query_parameters = [];
  request_type = unknown_type;
  version = unknown_version;
  content_type = unknown_content;
  content_length = negsuc 0;
  ranges = [];
  keep_alive = false;
  accept_encodings = [];
  headers = [];
  body = [];
  raw_request = [];
  request_size = negsuc 0;
}
