-- ===== src/Codes.antt =====
-- The codes of api/e/code.go and their texts of api/e/message.go.
use vsphere_facade.Prelude.{
  List, Option, String, [], ◌∷◌, ◌==◌, if◌then◌else◌, none, some, string_eq,
}

-- code.go
abbrev pub success : String
success = "2000"

abbrev pub accepted : String
accepted = "2020"

abbrev pub system_error : String
system_error = "5000"

abbrev pub bad_request : String
bad_request = "4000"

abbrev pub connect_failed : String
connect_failed = "4001"

abbrev pub not_enabled : String
not_enabled = "4002"

abbrev pub vm_not_found : String
vm_not_found = "4003"

abbrev pub unauthorized : String
unauthorized = "4010"

abbrev pub token_invalid : String
token_invalid = "4011"

abbrev pub token_expired : String
token_expired = "4012"

abbrev pub not_found : String
not_found = "4040"

abbrev pub failed : String
failed = "9999"

abbrev pub not_support_ver : String
not_support_ver = "4004"

abbrev pub login_fault : String
login_fault = "ServerFaultCode: Cannot complete login due to an incorrect user name or password."

-- Message of message.go, as its entries
abbrev pub messages : List (String × String)
messages =
    (success, "成功")
    ∷ (accepted, "请求已接收")
    ∷ (system_error, "错误")
    ∷ (unauthorized, "需要认证Token")
    ∷ (connect_failed, "连接失败")
    ∷ (not_enabled, "未开启配置")
    ∷ (not_found, "请求地址不存在")
    ∷ (vm_not_found, "虚拟机不存在")
    ∷ (token_invalid, "token无效")
    ∷ (token_expired, "token已过期")
    ∷ (login_fault, "无法连接VC，账号或密码错误")
    ∷ []

unfoldable pub find_message : List (String × String) → String → Option String
find_message [] code = none
find_message (m ∷ ms) code = if m.0 == code then some m.1 else find_message ms code

-- GetMessage: a code without a text is its own text.
unfoldable pub get_message : String → String
unfolding find_message
get_message code = elim (find_message messages code) [ none ↦ code | some msg ↦ msg ]
