-- ===== src/Providers/Codes.antt =====
-- `ProviderCode`, `ProviderOperation` and their tables, of backend/providers/core.py.
use super_mew.Prelude.{
  ℕ, String, Option, none, some, Bool, true, false, List, [], ◌∷◌, str_eq, if◌then◌else◌,
}

-- `ProviderCode`
pub data ProviderCode : Type 0 where
  embedding_unavailable vector_store_unavailable rerank_timeout : ProviderCode
  rerank_rate_limited rerank_unavailable rerank_invalid_response : ProviderCode
  rerank_circuit_open model_timeout model_rate_limited : ProviderCode
  model_unavailable tool_timeout tool_unavailable : ProviderCode
  provider_authentication_failed provider_request_invalid provider_timeout : ProviderCode
  policy_denied : ProviderCode

-- `ProviderCode.value`
abbrev pub code_value : ProviderCode → String
code_value embedding_unavailable = "EMBEDDING_UNAVAILABLE"
code_value vector_store_unavailable = "VECTOR_STORE_UNAVAILABLE"
code_value rerank_timeout = "RERANK_TIMEOUT"
code_value rerank_rate_limited = "RERANK_RATE_LIMITED"
code_value rerank_unavailable = "RERANK_UNAVAILABLE"
code_value rerank_invalid_response = "RERANK_INVALID_RESPONSE"
code_value rerank_circuit_open = "RERANK_CIRCUIT_OPEN"
code_value model_timeout = "MODEL_TIMEOUT"
code_value model_rate_limited = "MODEL_RATE_LIMITED"
code_value model_unavailable = "MODEL_UNAVAILABLE"
code_value tool_timeout = "TOOL_TIMEOUT"
code_value tool_unavailable = "TOOL_UNAVAILABLE"
code_value provider_authentication_failed = "PROVIDER_AUTHENTICATION_FAILED"
code_value provider_request_invalid = "PROVIDER_REQUEST_INVALID"
code_value provider_timeout = "PROVIDER_TIMEOUT"
code_value policy_denied = "POLICY_DENIED"

abbrev pub all_codes : List ProviderCode
all_codes =
    embedding_unavailable ∷ vector_store_unavailable ∷ rerank_timeout ∷ rerank_rate_limited
    ∷ rerank_unavailable ∷ rerank_invalid_response ∷ rerank_circuit_open ∷ model_timeout
    ∷ model_rate_limited ∷ model_unavailable ∷ tool_timeout ∷ tool_unavailable
    ∷ provider_authentication_failed ∷ provider_request_invalid ∷ provider_timeout ∷ policy_denied
    ∷ []

abbrev pub code_among : String → List ProviderCode → Option ProviderCode
code_among value [] = none
code_among value (c ∷ cs) = if str_eq (code_value c) value then some c else code_among value cs

-- `ProviderCode(value)`
unfoldable pub parse_code : String → Option ProviderCode
parse_code value = code_among value all_codes

-- `ProviderOperation`
pub data ProviderOperation : Type 0 where
  embedding vector_search rerank model tool : ProviderOperation

-- `ProviderOperation.value`
abbrev pub operation_value : ProviderOperation → String
operation_value embedding = "embedding"
operation_value vector_search = "vector_search"
operation_value rerank = "rerank"
operation_value model = "model"
operation_value tool = "tool"

-- `ProviderOperation(value)`
unfoldable pub parse_operation : String → Option ProviderOperation
parse_operation value =
    if str_eq "embedding" value
    then some embedding
    else if str_eq "vector_search" value
    then some vector_search
    else if str_eq "rerank" value
    then some rerank
    else if str_eq "model" value
    then some model
    else if str_eq "tool" value
    then some tool
    else none

-- `_ProviderCodeSpec`
pub record ProviderCodeSpec : Type 0 where
  pub message : String
  pub status_code : ℕ
  pub retryable : Bool

abbrev spec_of : String → ℕ → Bool → ProviderCodeSpec
spec_of message status_code retryable = record {
  message = message;
  status_code = status_code;
  retryable = retryable;
}

-- `_CODE_SPECS`
abbrev pub code_spec : ProviderCode → ProviderCodeSpec
code_spec embedding_unavailable = spec_of "嵌入服务暂时不可用，请稍后重试" 503 true
code_spec vector_store_unavailable = spec_of "向量检索服务暂时不可用，请稍后重试" 503 true
code_spec rerank_timeout = spec_of "精排服务响应超时，请稍后重试" 504 true
code_spec rerank_rate_limited = spec_of "精排服务当前繁忙，请稍后重试" 429 true
code_spec rerank_unavailable = spec_of "精排服务暂时不可用，请稍后重试" 503 true
code_spec rerank_invalid_response = spec_of "精排服务返回了无效结果，请联系管理员" 502 false
code_spec rerank_circuit_open = spec_of "精排服务暂时不可用，已启用召回排序降级" 503 true
code_spec model_timeout = spec_of "模型服务响应超时，请稍后重试" 504 true
code_spec model_rate_limited = spec_of "上游模型服务当前繁忙，请稍后重试" 429 true
code_spec model_unavailable = spec_of "模型服务暂时不可用，请稍后重试" 503 true
code_spec tool_timeout = spec_of "工具执行超时，请稍后重试" 504 true
code_spec tool_unavailable = spec_of "工具服务暂时不可用，请稍后重试" 503 true
code_spec provider_authentication_failed = spec_of "上游服务配置不可用，请联系管理员" 503 false
code_spec provider_request_invalid = spec_of "上游服务拒绝了当前请求，请联系管理员" 502 false
code_spec provider_timeout = spec_of "运行截止时间已到，已停止等待上游服务" 504 false
code_spec policy_denied = spec_of "当前操作不被安全策略允许" 403 false

-- `_OperationProfile`
pub record OperationProfile : Type 0 where
  pub timeout : ProviderCode
  pub rate_limited : ProviderCode
  pub unavailable : ProviderCode

-- `_OPERATION_PROFILES`
abbrev pub operation_profile : ProviderOperation → OperationProfile
operation_profile embedding = record {
  timeout = embedding_unavailable;
  rate_limited = embedding_unavailable;
  unavailable = embedding_unavailable;
}
operation_profile vector_search = record {
  timeout = vector_store_unavailable;
  rate_limited = vector_store_unavailable;
  unavailable = vector_store_unavailable;
}
operation_profile rerank = record {
  timeout = rerank_timeout;
  rate_limited = rerank_rate_limited;
  unavailable = rerank_unavailable;
}
operation_profile model = record {
  timeout = model_timeout;
  rate_limited = model_rate_limited;
  unavailable = model_unavailable;
}
operation_profile tool = record {
  timeout = tool_timeout;
  rate_limited = tool_unavailable;
  unavailable = tool_unavailable;
}
