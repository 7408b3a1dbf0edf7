-- ===== src/Codegen/Templates.antt =====
-- src/bpp_include/templates.h: the Bash functions and templates that generated programs are made of.
use bashpp.Prelude.{Text, lit}

abbrev pub bpp_supershell_function : Text
bpp_supershell_function =
    lit
      "function bpp____initsupershell() {\n\tlocal bpp____supershellDirectory=\"/dev/shm/\"\n\tif [[ ! -d \"${bpp____supershellDirectory}\" ]]; then\n\t\tbpp____supershellDirectory=\"${TMPDIR:-/tmp/}\"\n\tfi\n\tlocal bpp____supershelltempfile=\"$(mktemp \"${bpp____supershellDirectory}/XXXXXXXXXXXXXXXXXXXXXXXXXXXXXXXXXXXXXXXXXXXXXXXXXXXXXXXXXXXXXXXX\")\"\n\teval \"exec {bpp____supershellFD__$BASHPID}<>\\\"$bpp____supershelltempfile\\\"\"\n\trm \"$bpp____supershelltempfile\"\n}\nfunction bpp____supershell() {\n\tlocal __outputVar=\"$1\" __command=\"$2\" __supershellFD=\"bpp____supershellFD__$BASHPID\" __temporaryStorage=\"\"\n\tif [[ -z \"${!__supershellFD}\" ]]; then\n\t\tbpp____initsupershell\n\telse\n\t\t__temporaryStorage=$(< \"/dev/fd/${!__supershellFD}\")\n\tfi\n\t$__command 1>\"/dev/fd/${!__supershellFD}\"\n\teval \"$__outputVar=\\$(< \"/dev/fd/${!__supershellFD}\")\"\n\techo \"${__temporaryStorage}\">\"/dev/fd/${!__supershellFD}\"\n}\n"

abbrev pub bpp_repeat : Text
bpp_repeat = lit "function bpp____repeat() {\n\treturn $1\n}"

abbrev pub bpp_vtable_lookup : Text
bpp_vtable_lookup =
    lit
      "function bpp____vTable__lookup() {\n\tlocal __this=\"$1\" __method=\"$2\" __outputVar=\"$3\"\n\t([[ -z \"${__this}\" ]] || [[ -z \"${__method}\" ]] || [[ -z \"${__outputVar}\" ]]) && >&2 echo \"Bash++: Error: Invalid vTable lookup\" && exit 1\n\twhile : ; do\n\t\tif ! eval \"declare -p \\\"${__this}\\\"\" &>/dev/null; then\n\t\t\tbreak\n\t\tfi\n\t\t[[ -z \"${!__this}\" ]] && break\n\t\t__this=\"${!__this}\"\n\tdone\n\tlocal __vTable=\"${__this}____vPointer\"\n\tif ! eval \"declare -p \\\"${__vTable}\\\"\" &>/dev/null; then\n\t\treturn 1\n\tfi\n\tlocal __result=\"${!__vTable}[\\\"${__method}\\\"]\"\n\t[[ -z \"${!__result}\" ]] && >&2 echo \"Bash++: Error: Method '${__method}' not found in vTable for object '${__this}'\" && return 1\n\teval \"${__outputVar}=\\$__result\"\n}\n"

abbrev pub bpp_dynamic_cast : Text
bpp_dynamic_cast =
    lit
      "function bpp____dynamic__cast() {\n\tlocal __type=\"$1\" __outputVar=\"$2\" __this=\"$3\"\n\t([[ -z \"${__outputVar}\" ]]) && >&2 echo \"Bash++: Error: Invalid dynamic_cast\" && exit 1\n\teval \"${__outputVar}=0\"\n\twhile : ; do\n\t\tif ! eval \"declare -p \\\"${__this}\\\"\" &>/dev/null; then\n\t\t\tbreak\n\t\tfi\n\t\t[[ -z \"${!__this}\" ]] && break\n\t\t__this=\"${!__this}\"\n\tdone\n\tlocal __vTable=\"${__this}____vPointer\"\n\tif ! eval \"declare -p \\\"${__vTable}\\\"\" &>/dev/null; then\n\t\treturn 1\n\tfi\n\twhile [[ ! -z \"${!__vTable}\" ]] 2>/dev/null; do\n\t\t[[ \"${!__vTable}\" == \"bpp__${__type}____vTable\" ]] && eval \"${__outputVar}=\\\"${__this}\\\"\" && return 0\n\t\t__vTable=\"${!__vTable}[\\\"__parent__\\\"]\"\n\tdone\n\treturn 1\n}\n"

abbrev pub bpp_typeof_function : Text
bpp_typeof_function =
    lit
      "function bpp____typeof() {\n\tlocal __this=\"$1\" __outputVar=\"$2\"\n\t[[ -z \"${__this}\" ]] && >&2 echo \"Bash++: Error: Invalid type name request\" && exit 1\n\twhile : ; do\n\t\tif ! eval \"declare -p \\\"${__this}\\\"\" &>/dev/null; then\n\t\t\tbreak\n\t\tfi\n\t\t[[ -z \"${!__this}\" ]] && break\n\t\t__this=\"${!__this}\"\n\tdone\n\tlocal __vTable=\"${__this}____vPointer\"\n\tif ! eval \"declare -p \\\"${__vTable}\\\"\" &>/dev/null; then\n\t\treturn 1\n\tfi\n\t__vTable=\"${!__vTable}\"\n\tlocal __typeName=\"${__vTable/bpp__/}\"\n\t__typeName=\"${__typeName/____vTable/}\"\n\teval \"${__outputVar}=\\\"${__typeName}\\\"\"\n}\n"

abbrev pub template_method : Text
template_method =
    lit
      "function bpp__%CLASS%__%SIGNATURE%() {\n\tlocal __this=\"$1\"\n\tshift 1\n\t%PARAMS%\n\t%THIS_POINTER_VALIDATION%\n%METHODBODY%\n}\n"

abbrev pub this_pointer_validation : Text
this_pointer_validation =
    lit
      "while : ; do\n\t\tif ! eval \"declare -p \\\"${__this}\\\"\" &>/dev/null; then\n\t\t\tbreak\n\t\tfi\n\t\t[[ -z \"${!__this}\" ]] && break\n\t\t__this=\"${!__this}\"\n\tdone\n\tlocal __vPointer=\"${__this}____vPointer\"\n\tif [[ \"${__this}\" == \"0\" ]] || [[ -z \"${!__vPointer}\" ]]; then\n\t\t>&2 echo \"Bash++: Error: Attempted to call @%CLASS%.%SIGNATURE% on null object\"\n\t\treturn 1\n\tfi\n"
