-- ===== src/Ee/Core/Decode/Integers.antt =====
-- EE_CORE_INSTRUCTION_TABLE of liborbum/src/Resources/Ee/Core/EeCoreInstruction.cpp: the entries of the integer instructions but the primary opcodes,
-- from 0 to 177.
use orbum.Base.{List, [], ◌∷◌}
use orbum.Ee.Core.Decode.Info.{
  MipsInstructionInfo, info, cpi_cop_branch_delay, cpi_cop_branch_delay_likely, cpi_cop_default,
  cpi_mmi_default, cpi_r5900_branch, cpi_r5900_default, cpi_r5900_divide, cpi_r5900_multiply,
}

unfoldable pub integer_entries : List MipsInstructionInfo
integer_entries =
    info 48 cpi_r5900_default
    ∷ info 49 cpi_r5900_default
    ∷ info 50 cpi_r5900_default
    ∷ info 51 cpi_r5900_default
    ∷ info 52 cpi_r5900_default
    ∷ info 53 cpi_r5900_default
    ∷ info 54 cpi_r5900_branch
    ∷ info 55 cpi_r5900_branch
    ∷ info 56 cpi_r5900_default
    ∷ info 57 cpi_r5900_default
    ∷ info 58 cpi_r5900_default
    ∷ info 59 cpi_r5900_default
    ∷ info 60 cpi_r5900_default
    ∷ info 61 cpi_r5900_default
    ∷ info 62 cpi_r5900_default
    ∷ info 63 cpi_r5900_default
    ∷ info 64 cpi_r5900_default
    ∷ info 65 cpi_r5900_default
    ∷ info 66 cpi_r5900_default
    ∷ info 67 cpi_r5900_default
    ∷ info 68 cpi_r5900_multiply
    ∷ info 69 cpi_r5900_multiply
    ∷ info 70 cpi_r5900_divide
    ∷ info 71 cpi_r5900_divide
    ∷ info 72 cpi_r5900_default
    ∷ info 73 cpi_r5900_default
    ∷ info 74 cpi_r5900_default
    ∷ info 75 cpi_r5900_default
    ∷ info 76 cpi_r5900_default
    ∷ info 77 cpi_r5900_default
    ∷ info 78 cpi_r5900_default
    ∷ info 79 cpi_r5900_default
    ∷ info 80 cpi_r5900_default
    ∷ info 81 cpi_r5900_default
    ∷ info 82 cpi_r5900_default
    ∷ info 83 cpi_r5900_default
    ∷ info 84 cpi_r5900_default
    ∷ info 85 cpi_r5900_default
    ∷ info 86 cpi_r5900_default
    ∷ info 87 cpi_r5900_default
    ∷ info 88 cpi_r5900_branch
    ∷ info 89 cpi_r5900_branch
    ∷ info 90 cpi_r5900_branch
    ∷ info 91 cpi_r5900_branch
    ∷ info 92 cpi_r5900_branch
    ∷ info 93 cpi_r5900_branch
    ∷ info 94 cpi_r5900_default
    ∷ info 95 cpi_r5900_default
    ∷ info 96 cpi_r5900_default
    ∷ info 97 cpi_r5900_default
    ∷ info 98 cpi_r5900_default
    ∷ info 99 cpi_r5900_default
    ∷ info 100 cpi_r5900_branch
    ∷ info 101 cpi_r5900_branch
    ∷ info 102 cpi_r5900_branch
    ∷ info 103 cpi_r5900_branch
    ∷ info 104 cpi_r5900_branch
    ∷ info 105 cpi_r5900_branch
    ∷ info 106 cpi_r5900_branch
    ∷ info 107 cpi_r5900_branch
    ∷ info 108 cpi_r5900_branch
    ∷ info 109 cpi_r5900_branch
    ∷ info 110 cpi_r5900_branch
    ∷ info 111 cpi_r5900_branch
    ∷ info 112 cpi_r5900_branch
    ∷ info 113 cpi_r5900_branch
    ∷ info 114 cpi_r5900_branch
    ∷ info 115 cpi_r5900_branch
    ∷ info 137 cpi_mmi_default
    ∷ info 138 cpi_mmi_default
    ∷ info 139 cpi_mmi_default
    ∷ info 140 cpi_mmi_default
    ∷ info 141 cpi_mmi_default
    ∷ info 142 cpi_mmi_default
    ∷ info 143 cpi_mmi_default
    ∷ info 144 cpi_mmi_default
    ∷ info 145 cpi_mmi_default
    ∷ info 146 cpi_mmi_default
    ∷ info 147 cpi_mmi_default
    ∷ info 148 cpi_mmi_default
    ∷ info 149 cpi_mmi_default
    ∷ info 150 cpi_mmi_default
    ∷ info 151 cpi_mmi_default
    ∷ info 152 cpi_mmi_default
    ∷ info 153 cpi_mmi_default
    ∷ info 154 cpi_mmi_default
    ∷ info 155 cpi_mmi_default
    ∷ info 156 cpi_mmi_default
    ∷ info 157 cpi_mmi_default
    ∷ info 158 cpi_mmi_default
    ∷ info 159 cpi_mmi_default
    ∷ info 160 cpi_mmi_default
    ∷ info 161 cpi_mmi_default
    ∷ info 162 cpi_mmi_default
    ∷ info 163 cpi_mmi_default
    ∷ info 164 cpi_mmi_default
    ∷ info 165 cpi_mmi_default
    ∷ info 166 cpi_mmi_default
    ∷ info 167 cpi_mmi_default
    ∷ info 168 cpi_mmi_default
    ∷ info 169 cpi_mmi_default
    ∷ info 170 cpi_mmi_default
    ∷ info 171 cpi_mmi_default
    ∷ info 172 cpi_mmi_default
    ∷ info 173 cpi_mmi_default
    ∷ info 174 cpi_mmi_default
    ∷ info 175 cpi_mmi_default
    ∷ info 176 cpi_mmi_default
    ∷ info 177 cpi_mmi_default
    ∷ info 178 cpi_mmi_default
    ∷ info 179 cpi_mmi_default
    ∷ info 180 cpi_mmi_default
    ∷ info 181 cpi_mmi_default
    ∷ info 182 cpi_mmi_default
    ∷ info 183 cpi_mmi_default
    ∷ info 184 cpi_mmi_default
    ∷ info 185 cpi_mmi_default
    ∷ info 186 cpi_mmi_default
    ∷ info 187 cpi_mmi_default
    ∷ info 188 cpi_mmi_default
    ∷ info 189 cpi_mmi_default
    ∷ info 190 cpi_mmi_default
    ∷ info 191 cpi_mmi_default
    ∷ info 192 cpi_mmi_default
    ∷ info 193 cpi_mmi_default
    ∷ info 194 cpi_mmi_default
    ∷ info 195 cpi_mmi_default
    ∷ info 196 cpi_mmi_default
    ∷ info 197 cpi_mmi_default
    ∷ info 198 cpi_mmi_default
    ∷ info 199 cpi_mmi_default
    ∷ info 200 cpi_mmi_default
    ∷ info 201 cpi_mmi_default
    ∷ info 202 cpi_mmi_default
    ∷ info 203 cpi_mmi_default
    ∷ info 204 cpi_mmi_default
    ∷ info 205 cpi_mmi_default
    ∷ info 206 cpi_mmi_default
    ∷ info 207 cpi_mmi_default
    ∷ info 208 cpi_mmi_default
    ∷ info 209 cpi_mmi_default
    ∷ info 210 cpi_mmi_default
    ∷ info 211 cpi_mmi_default
    ∷ info 212 cpi_mmi_default
    ∷ info 213 cpi_mmi_default
    ∷ info 214 cpi_mmi_default
    ∷ info 116 cpi_mmi_default
    ∷ info 117 cpi_mmi_default
    ∷ info 118 cpi_mmi_default
    ∷ info 119 cpi_r5900_default
    ∷ info 120 cpi_r5900_default
    ∷ info 121 cpi_r5900_default
    ∷ info 122 cpi_r5900_default
    ∷ info 123 cpi_r5900_multiply
    ∷ info 124 cpi_r5900_multiply
    ∷ info 125 cpi_r5900_divide
    ∷ info 126 cpi_r5900_divide
    ∷ info 127 cpi_mmi_default
    ∷ info 128 cpi_mmi_default
    ∷ info 129 cpi_mmi_default
    ∷ info 130 cpi_mmi_default
    ∷ info 131 cpi_mmi_default
    ∷ info 132 cpi_mmi_default
    ∷ info 133 cpi_mmi_default
    ∷ info 134 cpi_mmi_default
    ∷ info 135 cpi_mmi_default
    ∷ info 136 cpi_mmi_default
    ∷ info 217 cpi_cop_branch_delay
    ∷ info 218 cpi_cop_branch_delay
    ∷ info 219 cpi_cop_branch_delay_likely
    ∷ info 220 cpi_cop_branch_delay_likely
    ∷ info 221 cpi_cop_default
    ∷ info 222 cpi_cop_default
    ∷ info 223 cpi_cop_default
    ∷ info 224 cpi_cop_default
    ∷ info 225 cpi_cop_default
    ∷ info 226 cpi_cop_default
    ∷ info 227 cpi_cop_default
    ∷ []
